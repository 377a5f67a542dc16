-- ===== src/Web/Campaigns/Pages.antt =====
-- The pages of the listing of campaigns.
use mathlib.Core.List.Perm
use mathlib.Core.List.{Perm}
use native.Mathlib.Nat.{div-add-mod, mod-lt}
use kitt.Prelude.{
  ℕ, zero, suc, ◌+◌, ◌-◌, ◌*◌, ◌/◌, ◌≤◌, ◌<◌, String, false, List, [], ◌∷◌, ◌++◌, ◌≡◌, refl, sym,
  ap, ◌∙◌, arith, map, map-append, length, take, drop, Bool-cases, inl, inr, eqb, All, select, ◌==◌,
  ◌||◌,
}
use kitt.Web.Database.{WebCampaign, Db, Outside, IsTextOrder}
use kitt.Web.Campaigns.{insert_newest, newest_first, matching, list_campaigns}

-- The first was not created before the second.
abbrev NotBefore : Outside → WebCampaign → WebCampaign → Type 0
NotBefore lib c d = lib.text_before c.created_at d.created_at ≡ false

-- No row was created before a row that stands after it.
abbrev pub IsNewestFirst : Outside → List WebCampaign → Type 0
IsNewestFirst lib [] = Unit {0}
IsNewestFirst lib (c ∷ rows) = All (NotBefore lib c) rows × IsNewestFirst lib rows

take-nil {ℓ} : {A : Type ℓ} (n : ℕ) → take {A = A} n [] ≡ []
take-nil zero = refl
take-nil (suc n) = refl

take-append {ℓ} :
    {A : Type ℓ} (n m : ℕ) (xs : List A) → take n xs ++ take m (drop n xs) ≡ take (n + m) xs
take-append zero m xs = ground arith
take-append (suc n) m [] = take-nil m ∙ sym (take-nil (suc n + m))
take-append (suc n) m (x ∷ xs) =
    let sum : suc (n + m) ≡ suc n + m = omega arith in
    ap (λ ys. x ∷ ys) (take-append n m xs) ∙ ap (λ k. take k (x ∷ xs)) sum

take-all {ℓ} : {A : Type ℓ} (n : ℕ) (xs : List A) → length xs ≤ n → take n xs ≡ xs
take-all zero [] h = refl
take-all zero (x ∷ xs) h = absurd (omega (arith, h))
take-all (suc n) [] h = refl
take-all (suc n) (x ∷ xs) h = ap (λ ys. x ∷ ys) (take-all n xs (omega (arith, h)))

module _ (lib : Outside) where
  insert_newest-length :
      (c : WebCampaign) (rows : List WebCampaign)
      → length (insert_newest lib c rows) ≡ suc (length rows)
  unfolding insert_newest
  insert_newest-length c [] = refl
  insert_newest-length c (d ∷ rows) = ground (arith, insert_newest-length c rows)

  newest_first-length : (rows : List WebCampaign) → length (newest_first lib rows) ≡ length rows
  unfolding newest_first
  newest_first-length [] = refl
  newest_first-length (c ∷ rows) =
      insert_newest-length c (newest_first lib rows) ∙ ap suc (newest_first-length rows)

  insert_newest-perm :
      (c : WebCampaign) (rows : List WebCampaign) → Perm (insert_newest lib c rows) (c ∷ rows)
  unfolding insert_newest
  insert_newest-perm c [] = Perm.refl _
  insert_newest-perm c (d ∷ rows) = elim (Bool-cases (lib.text_before c.created_at d.created_at)) [
    | inl earlier ↦
        rw earlier (Perm.trans (Perm.cons d (insert_newest-perm c rows)) (Perm.swap c d rows))
    | inr later ↦ rw later (Perm.refl _)
  ]

  -- The pages of the listing, put one after the other.
  abbrev pub first_pages : String → ℕ → ℕ → Db → List WebCampaign
  first_pages status per_page zero s = []
  first_pages status per_page (suc n) s =
      first_pages status per_page n s ++ (list_campaigns lib status (suc n) per_page s).items

  abbrev pub hidden : WebCampaign → WebCampaign
  hidden c = record c { config = "" }

  first_pages-take :
      (status : String) (per_page n : ℕ) (s : Db)
      → first_pages status per_page n s
        ≡ map hidden (take (n * per_page) (newest_first lib (matching lib status s)))
  unfolding list_campaigns
  first_pages-take status per_page zero s =
      let zero_offset : 0 ≡ 0 * per_page = omega arith in
      ap (λ k. map hidden (take k (newest_first lib (matching lib status s)))) zero_offset
  first_pages-take status per_page (suc n) s =
      let sorted = newest_first lib (matching lib status s) in
      let offset : (suc n - 1) * per_page ≡ n * per_page = ap (λ k. k * per_page) (omega arith) in
      let sum : n * per_page + per_page ≡ suc n * per_page = omega arith in
      ap (λ rows. rows ++ map hidden (take per_page (drop ((suc n - 1) * per_page) sorted)))
        (first_pages-take status per_page n s)
      ∙ ap
          (λ k.
            map hidden (take (n * per_page) sorted) ++ map hidden (take per_page (drop k sorted)))
          offset
      ∙ sym (
          map-append hidden (take (n * per_page) sorted)
            (take per_page (drop (n * per_page) sorted)))
      ∙ ap (map hidden) (take-append (n * per_page) per_page sorted)
      ∙ ap (λ k. map hidden (take k sorted)) sum

  enough_pages :
      (total per_page : ℕ) → 0 < per_page → total ≤ (total + per_page - 1) / per_page * per_page
  enough_pages total per_page h =
      let n = total + per_page - 1 in omega (arith, div-add-mod n per_page, mod-lt n h)

  newest_first-perm : (rows : List WebCampaign) → Perm (newest_first lib rows) rows
  unfolding newest_first
  newest_first-perm [] = Perm.refl _
  newest_first-perm (c ∷ rows) =
      Perm.trans (insert_newest-perm c (newest_first lib rows))
        (Perm.cons c (newest_first-perm rows))

  module _ (order : IsTextOrder lib) where
    All-weaken :
        (c d : WebCampaign) (rows : List WebCampaign)
        → lib.text_before c.created_at d.created_at ≡ false
        → All (NotBefore lib d) rows
        → All (NotBefore lib c) rows
    All-weaken c d [] h k = tt
    All-weaken c d (e ∷ rows) h k = (
      order.not_before_trans c.created_at d.created_at e.created_at h k.0,
      All-weaken c d rows h k.1,
    )

    insert_newest-All :
        (c d : WebCampaign) (rows : List WebCampaign)
        → lib.text_before d.created_at c.created_at ≡ false
        → All (NotBefore lib d) rows
        → All (NotBefore lib d) (insert_newest lib c rows)
    unfolding insert_newest
    insert_newest-All c d [] h k = (h, tt)
    insert_newest-All c d (e ∷ rows) h k =
        elim (Bool-cases (lib.text_before c.created_at e.created_at)) [
          | inl earlier ↦ rw earlier (k.0, insert_newest-All c d rows h k.1)
          | inr later ↦ rw later (h, k)
        ]

    insert_newest-IsNewestFirst :
        (c : WebCampaign) (rows : List WebCampaign)
        → IsNewestFirst lib rows
        → IsNewestFirst lib (insert_newest lib c rows)
    unfolding insert_newest
    insert_newest-IsNewestFirst c [] h = (tt, tt)
    insert_newest-IsNewestFirst c (d ∷ rows) h =
        elim (Bool-cases (lib.text_before c.created_at d.created_at)) [
          | inl earlier ↦ rw earlier (
            insert_newest-All c d rows (order.asym c.created_at d.created_at earlier) h.0,
            insert_newest-IsNewestFirst c rows h.1,
          )
          | inr later ↦ rw later ((later, All-weaken c d rows later h.0), h)
        ]

    newest_first-IsNewestFirst :
        (rows : List WebCampaign) → IsNewestFirst lib (newest_first lib rows)
    unfolding newest_first
    newest_first-IsNewestFirst [] = tt
    newest_first-IsNewestFirst (c ∷ rows) =
        insert_newest-IsNewestFirst c (newest_first lib rows) (newest_first-IsNewestFirst rows)

  -- The pages that a listing of `per_page` rows a page announces, put one after the other, are all
  -- campaigns with the status (with any status, for an empty one), each once and without its
  -- configuration, and none comes before one that was created later.
  pub list_campaigns-pages :
      (status : String) (page per_page : ℕ) (s : Db)
      → IsTextOrder lib
      → 0 < per_page
      → (rows : List WebCampaign) × (first_pages status per_page
            (list_campaigns lib status page per_page s).pages
            s
          ≡ map hidden rows)
        × Perm rows
            (select (λ (c : WebCampaign). (status == "") || (c.status == status)) s.campaigns)
        × IsNewestFirst lib rows
  unfolding list_campaigns matching
  list_campaigns-pages status page per_page s order h =
      let rows = matching lib status s in
      let sorted = newest_first lib rows in
      let positive : eqb per_page 0 ≡ false = ground (arith, h) in
      let fits : length sorted ≤ (length rows + per_page - 1) / per_page * per_page =
        omega (arith, newest_first-length rows, enough_pages (length rows) per_page h) in
      (
        sorted,
        rw positive (
            first_pages-take status per_page ((length rows + per_page - 1) / per_page) s
            ∙ ap (map hidden)
                (take-all ((length rows + per_page - 1) / per_page * per_page) sorted fits)),
        newest_first-perm rows,
        newest_first-IsNewestFirst order rows,
      )
