-- ===== src/Storage/Files/Rows.antt =====
-- How the rows of a scan come from the files, and where a written file stands among them.
use mathlib.Core.List.Memᴰ
use mathlib.Core.List.{Memᴰ, reverse, reverse-cons}
use Prim.Native.String.{String}
use kitt.Prelude.{
  ℕ, Bool, true, false, not, Option, none, some, List, [], ◌∷◌, ◌++◌, ◌≡◌, refl, ap, sym, ◌∙◌,
  subst, arith, Bool-cases, ◌⊎◌, inl, inr, any, select, insert, ◌==◌, eq_iff, lookup-insert, ◌||◌,
  append-nil, append_assoc,
}
use kitt.Prelude.Members.{member-select, select-member}
use kitt.Prelude.Exec.{Result, ok, raised}
use kitt.Prelude.Floats.{FloatOps}
use kitt.Prelude.Paths.{FilePath, goes_up, dots}
use kitt.Prelude.Text.{codes, same_text, starts_with}
use kitt.Prelude.Sorting.{sorted, sorted-member, member-sorted}
use kitt.Storage.Json.{Json, Row, to_row, to_fields, truthy, get_or, same}
use kitt.Storage.Files.{
  File, parsed, unreadable, place, lead, is_kitt, metrics_in, found_files, in_order, marked,
  take_fields, row_of, add_row, load_rows,
}
use kitt.Storage.JsonStore.{visible}

pub to_row-to_fields : (r : Row) → to_row (to_fields r) ≡ r
to_row-to_fields [] = refl
to_row-to_fields ((k, v) ∷ r) = ap (λ x. (k, v) ∷ x) (to_row-to_fields r)

-- Writing a hidden key leaves the rest as it is shown.
visible-insert :
    (k : String) (v : Json) (r : Row)
    → starts_with (codes k) (codes "_") ≡ true
    → visible (insert k v r) ≡ visible r
unfolding visible insert
visible-insert k v [] h = rw h refl
visible-insert k v ((j, w) ∷ r) h = elim (Bool-cases (j == k)) [
  | inl t ↦
      let h' : starts_with (codes j) (codes "_") ≡ true = rw ((eq_iff j k).0 t) h in
      rw t (rw h' refl)
  | inr f ↦ rw f (ground (arith, visible-insert k v r h))
]

||-false : (a b : Bool) → (a || b) ≡ false → (a ≡ false) × (b ≡ false)
||-false true b h = absurd (cc)
||-false false b h = (refl, h)

lead_lem :
    (back ps : List (List ℕ))
    → any (λ part. same_text part dots) ps ≡ false
    → lead back ps ≡ reverse back ++ ps
unfolding lead
lead_lem [] [] h = refl
lead_lem (b ∷ back) [] h = sym (append-nil (reverse (b ∷ back)))
lead_lem [] (p ∷ ps) h =
    let (here, later) = ||-false (same_text p dots) _ h in rw here (lead_lem (p ∷ []) ps later)
lead_lem (b ∷ back) (p ∷ ps) h =
    let (here, later) = ||-false (same_text p dots) _ h in
    rw here (
      lead_lem (p ∷ b ∷ back) ps later
      ∙ ap (λ x. x ++ ps) (reverse-cons p (b ∷ back))
      ∙ append_assoc (reverse (b ∷ back)) (p ∷ []) ps)

pub place_lem : (p : FilePath) → goes_up p ≡ false → place p ≡ p
unfolding place goes_up
place_lem p h = rw (lead_lem [] p.parts h) refl

add_row-from :
    (o : Result (Option Row)) (l : Result (List Row)) (rows : List Row) (r : Row)
    → add_row o l ≡ ok rows
    → Memᴰ r rows
    → (o ≡ ok (some r)) ⊎ ((later : List Row) × (l ≡ ok later) × Memᴰ r later)
unfolding add_row
add_row-from (raised e) l rows r h m = absurd (cc)
add_row-from (ok none) (raised e) rows r h m = absurd (cc)
add_row-from (ok (some q)) (raised e) rows r h m = absurd (cc)
add_row-from (ok none) (ok later) rows r h m =
    let same : rows ≡ later = cc in inr (later, refl, subst (λ x. Memᴰ r x) same m)
add_row-from (ok (some q)) (ok later) rows r h m =
    let same : rows ≡ q ∷ later = cc in
    elim (Memᴰ.cases_cons (subst (λ x. Memᴰ r x) same m)) [
      | inl here ↦ inl (ap (λ x. ok (some x)) (sym here))
      | inr there ↦ inr (later, refl, there)
    ]

add_row-keeps :
    (o : Result (Option Row)) (l : Result (List Row)) (rows : List Row)
    → add_row o l ≡ ok rows
    → ((r : Row) → o ≡ ok (some r) → Memᴰ r rows)
      × ((later : List Row) × (l ≡ ok later) × ((r : Row) → Memᴰ r later → Memᴰ r rows))
unfolding add_row
add_row-keeps (raised e) l rows h = absurd (cc)
add_row-keeps (ok none) (raised e) rows h = absurd (cc)
add_row-keeps (ok (some q)) (raised e) rows h = absurd (cc)
add_row-keeps (ok none) (ok later) rows h =
    let same : later ≡ rows = cc in
    (λ r e. absurd (cc), (later, refl, λ r m. subst (λ x. Memᴰ r x) same m))
add_row-keeps (ok (some q)) (ok later) rows h =
    let same : q ∷ later ≡ rows = cc in
    (
      λ r e. subst (λ x. Memᴰ r x) same (Memᴰ.head (cc)),
      (later, refl, λ r m. subst (λ x. Memᴰ r x) same (Memᴰ.tail m)),
    )

module _ (make_id : FilePath → String) where
  pub visible-marked : (p : FilePath) (r : Row) → visible (marked make_id p r) ≡ visible r
  unfolding marked starts_with
  visible-marked p r = visible-insert "_id" _ _ refl ∙ visible-insert "_source_path" _ r refl

  pub id-marked :
      (p : FilePath) (r : Row)
      → get_or "_id" (marked make_id p r) Json.null ≡ Json.text (codes (make_id p))
  unfolding marked get_or
  id-marked p r = rw (lookup-insert "_id" "_id" (Json.text (codes (make_id p))) _) refl

module _ (ops : FloatOps) (make_id : FilePath → String) where
  -- Each row is that of a file.
  pub load_rows-from :
      (files : List File) (rows : List Row) (r : Row)
      → load_rows ops make_id files ≡ ok rows
      → Memᴰ r rows
      → (f : File) × Memᴰ f files × (row_of ops make_id f ≡ ok (some r))
  unfolding load_rows
  load_rows-from [] rows r e m =
      let same : rows ≡ [] = cc in
      let m' : Memᴰ {A = Row} r [] = subst (λ x. Memᴰ r x) same m in elim m' [ ]
  load_rows-from (f ∷ files) rows r e m =
      elim (add_row-from (row_of ops make_id f) (load_rows ops make_id files) rows r e m) [
        | inl here ↦ (f, Memᴰ.head refl, here)
        | inr (later, e', m') ↦
            let (g, n, q) = load_rows-from files later r e' m' in (g, Memᴰ.tail n, q)
      ]

  pub load_rows-member :
      (files : List File) (rows : List Row) (f : File) (r : Row)
      → load_rows ops make_id files ≡ ok rows
      → Memᴰ f files
      → row_of ops make_id f ≡ ok (some r)
      → Memᴰ r rows
  unfolding load_rows
  load_rows-member [] rows f r e m q = elim m [ ]
  load_rows-member (g ∷ files) rows f r e m q =
      let (here, rest) =
        add_row-keeps (row_of ops make_id g) (load_rows ops make_id files) rows e in
      elim (Memᴰ.cases_cons m) [
        | inl same ↦ here r (ap (row_of ops make_id) (sym same) ∙ q)
        | inr there ↦ rest.2 r (load_rows-member files rest.0 f r rest.1 there q)
      ]

  take_fields-id :
      (p : FilePath) (j : Json) (r : Row)
      → take_fields make_id p j ≡ ok (some r)
      → get_or "_id" r Json.null ≡ Json.text (codes (make_id p))
  unfolding take_fields
  take_fields-id p (Json.object fields) r e =
      let same : marked make_id p (to_row fields) ≡ r = cc in
      subst (λ x. get_or "_id" x Json.null ≡ Json.text (codes (make_id p))) same
        (id-marked make_id p (to_row fields))
  take_fields-id p Json.null r e = absurd (cc)
  take_fields-id p (Json.boolean b) r e = absurd (cc)
  take_fields-id p (Json.number x) r e = absurd (cc)
  take_fields-id p (Json.text t) r e = absurd (cc)
  take_fields-id p (Json.array xs) r e = absurd (cc)

  pub row_of-id :
      (f : File) (r : Row)
      → row_of ops make_id f ≡ ok (some r)
      → get_or "_id" r Json.null ≡ Json.text (codes (make_id f.0))
  unfolding row_of
  row_of-id (p, unreadable) r e = absurd (cc)
  row_of-id (p, parsed j) r e = elim (Bool-cases (truthy ops j)) [
    | inl t ↦ take_fields-id p j r (rw t at e)
    | inr f ↦
        let e' : ◌≡◌ {A = Result (Option Row)} (ok none) (ok (some r)) = rw f at e in absurd (cc e')
  ]

pub not-true : (b : Bool) → not b ≡ true → b ≡ false
not-true true h = absurd (cc)
not-true false h = refl

pub found-from :
    (base : FilePath) (files : List File) (f : File)
    → Memᴰ f (found_files base files)
    → Memᴰ f files
unfolding found_files
found-from base files f m =
    elim (Memᴰ.append_cases (sorted in_order (select (metrics_in is_kitt base) files)) m) [
      | inl a ↦ (member-select _ files (member-sorted in_order _ a)).0
      | inr b ↦ (member-select _ files (member-sorted in_order _ b)).0
    ]

pub found-kitt :
    (base : FilePath) (files : List File) (f : File)
    → Memᴰ f files
    → metrics_in is_kitt base f ≡ true
    → Memᴰ f (found_files base files)
unfolding found_files
found-kitt base files f m t =
    Memᴰ.append_left _ (sorted-member in_order _ (select-member _ files m t))
