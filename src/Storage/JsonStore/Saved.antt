-- ===== src/Storage/JsonStore/Saved.antt =====
-- A result that is saved is found under the id that the saving gave.
use mathlib.Core.List.Memᴰ
use mathlib.Core.List.{Memᴰ}
use Prim.Native.String.{String}
use kitt.Prelude.{
  ℕ, Bool, true, false, not, some, List, [], ◌∷◌, ◌≡◌, refl, ap, sym, ◌∙◌, subst, Bool-cases, ◌⊎◌,
  inl, inr,
}
use kitt.Prelude.Members.{member-select}
use kitt.Prelude.Exec.{ok, pure, gets, modify, ◌>>=◌}
use kitt.Prelude.Floats.{FloatOps}
use kitt.Prelude.Paths.{FilePath, same_path, goes_up}
use kitt.Prelude.Text.{codes, same_text}
use kitt.Prelude.Text.Same.{same_text_refl}
use kitt.Storage.Json.{Json, Row, to_fields, truthy, get_or, same}
use kitt.Storage.Files.{
  File, parsed, unreadable, write, is_kitt, metrics_in, found_files, marked, take_fields, row_of,
  scan_files,
}
use kitt.Storage.JsonStore.{
  Store, visible, first, has_id, output_path, save_result, as_text, settle, get_result,
  scan_results, known, scan, shown, invalidate_cache, put_file,
}
use kitt.Storage.Files.Rows.{
  to_row-to_fields, place_lem, visible-marked, id-marked, load_rows-from, load_rows-member,
  row_of-id, not-true, found-from, found-kitt,
}

first-some :
    (p : Row → Bool) (rows : List Row) (r : Row)
    → Memᴰ r rows
    → p r ≡ true
    → (q : Row) × (first p rows ≡ some q) × Memᴰ q rows × (p q ≡ true)
unfolding first
first-some p [] r m t = elim m [ ]
first-some p (x ∷ rows) r m t = elim (Bool-cases (p x)) [
  | inl here ↦ (x, rw here refl, Memᴰ.head refl, here)
  | inr not_here ↦ elim (Memᴰ.cases_cons m) [
    | inl same ↦ absurd (let t' : p x ≡ true = ap p (sym same) ∙ t in cc (t', not_here))
    | inr later ↦
        let (q, e, n, u) = first-some p rows r later t in (q, rw not_here e, Memᴰ.tail n, u)
  ]
]

module _ (ops : FloatOps) (make_id : FilePath → String) (p : FilePath) (r : Row) where
  abbrev saved_file : File
  saved_file = (p, parsed (Json.object (to_fields r)))

  row_of-saved :
      truthy ops (Json.object (to_fields r)) ≡ true
      → row_of ops make_id saved_file ≡ ok (some (marked make_id p r))
  unfolding row_of take_fields
  row_of-saved t = rw t (rw (to_row-to_fields r) refl)

  has_id-marked : has_id ops (make_id p) (marked make_id p r) ≡ true
  unfolding has_id
  has_id-marked = rw (id-marked make_id p r) (same_text_refl (codes (make_id p)))

  written-head :
      (files : List File)
      → goes_up p ≡ false
      → Memᴰ saved_file (write p (parsed (Json.object (to_fields r))) files)
  unfolding write
  written-head files up = Memᴰ.head (rw (place_lem p up) refl)

  written-from :
      (files : List File) (f : File)
      → goes_up p ≡ false
      → Memᴰ f (write p (parsed (Json.object (to_fields r))) files)
      → (f ≡ saved_file) ⊎ (Memᴰ f files × (same_path f.0 p ≡ false))
  unfolding write
  written-from files f up m = elim (Memᴰ.cases_cons m) [
    | inl here ↦ inl (here ∙ rw (place_lem p up) refl)
    | inr there ↦
        let (n, different) = member-select _ files there in
        inr (n, not-true _ (subst (λ x. not (same_path f.0 x) ≡ true) (place_lem p up) different))
  ]

  saved_first :
      (files : List File) (f : File) (q : Row)
      → ((f : File)
          → Memᴰ f files
          → same_text (codes (make_id f.0)) (codes (make_id p)) ≡ true
          → same_path f.0 p ≡ true)
      → truthy ops (Json.object (to_fields r)) ≡ true
      → (f ≡ saved_file) ⊎ (Memᴰ f files × (same_path f.0 p ≡ false))
      → row_of ops make_id f ≡ ok (some q)
      → has_id ops (make_id p) q ≡ true
      → q ≡ marked make_id p r
  unfolding has_id
  saved_first files f q distinct t (inl here) e h =
      let e' : row_of ops make_id saved_file ≡ ok (some q) =
        ap (row_of ops make_id) (sym here) ∙ e in
      let e'' = row_of-saved t in cc (e', e'')
  saved_first files f q distinct t (inr (m, different)) e h =
      let h' : same_text (codes (make_id f.0)) (codes (make_id p)) ≡ true =
        subst (λ x. same ops x (Json.text (codes (make_id p))) ≡ true) (row_of-id ops make_id f q e)
          h in
      absurd (let u = distinct f m h' in cc (u, different))

  first-saved :
      (files : List File) (base : FilePath) (rows : List Row)
      → goes_up p ≡ false
      → metrics_in is_kitt base saved_file ≡ true
      → truthy ops (Json.object (to_fields r)) ≡ true
      → ((f : File)
          → Memᴰ f files
          → same_text (codes (make_id f.0)) (codes (make_id p)) ≡ true
          → same_path f.0 p ≡ true)
      → scan_files ops make_id base (write p (parsed (Json.object (to_fields r))) files) ≡ ok rows
      → first (has_id ops (make_id p)) rows ≡ some (marked make_id p r)
  unfolding scan_files
  first-saved files base rows up listed t distinct e =
      let after = write p (parsed (Json.object (to_fields r))) files in
      let new : Memᴰ saved_file after = written-head files up in
      let m : Memᴰ (marked make_id p r) rows =
        load_rows-member ops make_id (found_files base after) rows saved_file _ e
          (found-kitt base after saved_file new listed) (row_of-saved t) in
      let (q, first_q, n, h) = first-some (has_id ops (make_id p)) rows _ m has_id-marked in
      let (f, found, e') = load_rows-from ops make_id (found_files base after) rows q e n in
      first_q
      ∙ ap some (
          saved_first files f q distinct t (written-from files f up (found-from base after f found))
            e' h)

module _ (ops : FloatOps) (make_id : FilePath → String) where
  -- Where a result has a field, its path lies in kitt-results and goes nowhere up, no other file has
  -- its id and the scan of the files raises nothing, saving it gives its id, under which it is then
  -- found, without the fields whose names begin with "_".
  pub save_result-get_result :
      (s : Store) (r : Row) (uid model timestamp engine : List ℕ) (p : FilePath) (rows : List Row)
      → get_or "model" r (Json.text (codes "unknown")) ≡ Json.text model
      → get_or "timestamp" r (Json.text (codes "unknown")) ≡ Json.text timestamp
      → get_or "engine" r (Json.text (codes "unknown")) ≡ Json.text engine
      → p ≡ output_path s.base_dir model engine timestamp uid
      → goes_up p ≡ false
      → metrics_in is_kitt s.base_dir (p, unreadable) ≡ true
      → truthy ops (Json.object (to_fields r)) ≡ true
      → ((f : File)
          → Memᴰ f s.files
          → same_text (codes (make_id f.0)) (codes (make_id p)) ≡ true
          → same_path f.0 p ≡ true)
      → scan_files ops make_id s.base_dir (write p (parsed (Json.object (to_fields r))) s.files)
        ≡ ok rows
      → ((save_result ops make_id r uid s).0 ≡ ok (make_id p))
        × ((get_result ops make_id (make_id p) (save_result ops make_id r uid s).1).0
            ≡ ok (some (visible r)))
  unfolding metrics_in save_result as_text settle pure gets modify ◌>>=◌ get_result scan_results
      known scan shown invalidate_cache put_file
  save_result-get_result s r uid model timestamp engine p rows m ts en path up listed t distinct e =
      (
        rw (m, ts, en) (rw path refl),
        rw (m, ts, en)
            (rw (sym path) (
              rw e (
                rw (first-saved ops make_id p r s.files s.base_dir rows up listed t distinct e)
                  (rw (visible-marked make_id p r) refl)))),
      )
