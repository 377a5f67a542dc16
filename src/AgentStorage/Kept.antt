-- ===== src/AgentStorage/Kept.antt =====
-- What the cleanup of the storage leaves alone.
use kitt.Prelude.{
  ℕ, Bool, true, false, not, List, [], ◌∷◌, select, any, ◌&&◌, ◌≡◌, refl, ◌∙◌, arith, Bool-cases,
  inl, inr,
}
use kitt.Prelude.Text.{same_text, codes, starts_with}
use kitt.Prelude.Text.Same.{same_text-eq}
use kitt.Prelude.Paths.{FilePath, begins, is_relative_to, same_path, same_bool, name}
use kitt.Storage.Files.{place}
use kitt.AgentStorage.{
  ModelStorageManager, Disk, exists, remove_tree, cleanup_model, cleanup_items, execute_cleanup,
}

and-split : (a b : Bool) → (a && b) ≡ true → (a ≡ true) × (b ≡ true)
and-split true b h = (refl, h)
and-split false b h = absurd (cc)

begins_trans :
    (ps qs rs : List (List ℕ)) → begins ps qs ≡ true → begins qs rs ≡ true → begins ps rs ≡ true
unfolding begins
begins_trans ps qs [] h k = refl
begins_trans ps [] (r ∷ rs) h k = absurd (cc)
begins_trans [] (q ∷ qs) (r ∷ rs) h k = absurd (cc)
begins_trans (p ∷ ps) (q ∷ qs) (r ∷ rs) h k =
    let (h1, h2) = and-split (same_text p q) (begins ps qs) h in
    let (k1, k2) = and-split (same_text q r) (begins qs rs) k in
    rw (same_text-eq p q h1) (rw (k1, begins_trans ps qs rs h2 k2) refl)

same_bool_trans :
    (a b c : Bool) → same_bool a b ≡ true → same_bool b c ≡ true → same_bool a c ≡ true
same_bool_trans true true c h k = k
same_bool_trans true false c h k = absurd (cc)
same_bool_trans false true c h k = absurd (cc)
same_bool_trans false false c h k = k

is_relative_to_trans :
    (p q r : FilePath)
    → is_relative_to p q ≡ true
    → is_relative_to q r ≡ true
    → is_relative_to p r ≡ true
unfolding is_relative_to
is_relative_to_trans p q r h k =
    let (h1, h2) = and-split (same_bool p.absolute q.absolute) (begins p.parts q.parts) h in
    let (k1, k2) = and-split (same_bool q.absolute r.absolute) (begins q.parts r.parts) k in
    rw
      (
        same_bool_trans p.absolute q.absolute r.absolute h1 k1,
        begins_trans p.parts q.parts r.parts h2 k2,
      )
      refl

any-select :
    (p k : FilePath → Bool) (xs : List FilePath)
    → ((x : FilePath) → p x ≡ true → k x ≡ true)
    → any p (select k xs) ≡ any p xs
any-select p k [] h = refl
any-select p k (x ∷ xs) h = ground (arith, any-select p k xs h, h x)

-- A path outside the storage, and what it is not below.
module _ (m : ModelStorageManager) (q : FilePath)
    (outside : is_relative_to (place q) (place m.storage_dir) ≡ false) where
  spared :
      (p x : FilePath)
      → is_relative_to (place p) (place m.storage_dir) ≡ true
      → same_path x (place q) ≡ true
      → not (is_relative_to x (place p)) ≡ true
  unfolding same_path
  spared p x inside same = elim (Bool-cases (is_relative_to x (place p))) [
    | inl below ↦
        let (a, b) = and-split (is_relative_to x (place q)) (is_relative_to (place q) x) same in
        let c = is_relative_to_trans (place q) x (place p) b below in
        let e = is_relative_to_trans (place q) (place p) (place m.storage_dir) c inside in
        absurd (cc (e, outside))
    | inr apart ↦ rw apart refl
  ]

  exists-cleanup_model :
      (p : FilePath) (disk : Disk) → exists q (cleanup_model m p disk) ≡ exists q disk
  unfolding cleanup_model exists remove_tree
  exists-cleanup_model p disk = elim (Bool-cases (exists p disk)) [
    | inl there ↦ elim (Bool-cases (is_relative_to (place p) (place m.storage_dir))) [
      | inl inside ↦ rw (there, inside) (any-select _ _ disk (λ x. spared p x inside))
      | inr other ↦ rw (there, other) refl
    ]
    | inr gone ↦ rw gone refl
  ]

  exists-cleanup_items :
      (items : List FilePath) (disk : Disk) → exists q (cleanup_items m items disk) ≡ exists q disk
  unfolding cleanup_items
  exists-cleanup_items [] disk = refl
  exists-cleanup_items (p ∷ items) disk = elim (Bool-cases (starts_with (name p) (codes "."))) [
    | inl hidden ↦ rw hidden (exists-cleanup_items items disk)
    | inr shown ↦
        rw shown (exists-cleanup_items items (cleanup_model m p disk) ∙ exists-cleanup_model p disk)
  ]

  -- A path that does not lie in the storage exists after a cleanup, of a model or of all that is
  -- listed, exactly if it existed before, whatever the command names.
  pub exists-execute_cleanup :
      (target : List ℕ) (items : List FilePath) (disk : Disk)
      → exists q (execute_cleanup m target items disk) ≡ exists q disk
  unfolding execute_cleanup
  exists-execute_cleanup (c ∷ target) items disk = exists-cleanup_model _ disk
  exists-execute_cleanup [] items disk = elim (Bool-cases (exists m.storage_dir disk)) [
    | inl there ↦ rw there (exists-cleanup_items items disk)
    | inr gone ↦ rw gone refl
  ]
