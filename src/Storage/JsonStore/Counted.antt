-- ===== src/Storage/JsonStore/Counted.antt =====
-- How many results a query gives, beside what `count` says.
use Prim.Native.String.{String}
use kitt.Prelude.{
  ℕ, zero, suc, ◌-◌, min, Bool, true, false, Option, none, some, List, [], ◌∷◌, ◌≡◌, refl, ap, sym,
  ◌∙◌, arith, take, drop, length, length-drop, length-map, map,
}
use kitt.Prelude.Exec.{Result, ok, raised, pure, continue, ◌>>=◌}
use kitt.Prelude.Exec.Rules.{bind_inv}
use kitt.Prelude.Floats.{FloatOps}
use kitt.Prelude.Paths.{FilePath}
use kitt.Storage.Json.{Json, Row}
use kitt.Storage.JsonStore.{
  Store, Order, scan_results, query, count, sorted_rows, insert_row, insert_into, placed_row,
  ordered, filtered, settle, visible, limited,
}

-- The size of a page of at most `limit` of `n` items.
abbrev pub capped : Option ℕ → ℕ → ℕ
capped none n = n
capped (some limit) n = min limit n

length-take : {A : Type 0} (n : ℕ) (xs : List A) → length (take n xs) ≡ min n (length xs)
length-take zero xs = omega arith
length-take (suc n) [] = omega arith
length-take (suc n) (x ∷ xs) = omega (arith, length-take n xs)

length-limited :
    (limit : Option ℕ) (rows : List Row) → length (limited limit rows) ≡ capped limit (length rows)
length-limited none rows = refl
length-limited (some limit) rows = length-take limit rows

module _ (ops : FloatOps) (make_id : FilePath → String) where
  length-placed_row :
      (less : Option Bool) (r q : Row) (rows : List Row) (later : Result (List Row))
      (out : List Row)
      → ((l : List Row) → later ≡ ok l → length l ≡ suc (length rows))
      → placed_row ops less r q rows later ≡ ok out
      → length out ≡ suc (suc (length rows))
  unfolding placed_row
  length-placed_row none r q rows later out h e = absurd (cc)
  length-placed_row (some false) r q rows later out h e =
      let same : out ≡ r ∷ q ∷ rows = cc in ap length same
  length-placed_row (some true) r q rows (ok later) out h e =
      let same : out ≡ q ∷ later = cc in ap length same ∙ ap suc (h later refl)
  length-placed_row (some true) r q rows (raised x) out h e = absurd (cc)

  length-insert_row :
      (desc : Bool) (key : String) (r : Row) (rows out : List Row)
      → insert_row ops desc key r rows ≡ ok out
      → length out ≡ suc (length rows)
  unfolding insert_row
  length-insert_row desc key r [] out e = let same : out ≡ r ∷ [] = cc in ap length same
  length-insert_row desc key r (q ∷ rows) out e =
      length-placed_row _ r q rows _ out (λ l. length-insert_row desc key r rows l) e

  length-insert_into :
      (desc : Bool) (key : String) (r : Row) (rest : Result (List Row)) (n : ℕ) (out : List Row)
      → ((l : List Row) → rest ≡ ok l → length l ≡ n)
      → insert_into ops desc key r rest ≡ ok out
      → length out ≡ suc n
  unfolding insert_into
  length-insert_into desc key r (ok rows) n out h e =
      length-insert_row desc key r rows out e ∙ ap suc (h rows refl)
  length-insert_into desc key r (raised x) n out h e = absurd (cc)

  length-sorted_rows :
      (desc : Bool) (key : String) (rows out : List Row)
      → sorted_rows ops desc key rows ≡ ok out
      → length out ≡ length rows
  unfolding sorted_rows
  length-sorted_rows desc key [] out e = let same : out ≡ [] = cc in ap length same
  length-sorted_rows desc key (r ∷ rows) out e =
      length-insert_into desc key r _ (length rows) out (λ l. length-sorted_rows desc key rows l) e

  length-ordered :
      (order : Option Order) (rows out : List Row)
      → ordered ops order rows ≡ ok out
      → length out ≡ length rows
  unfolding ordered
  length-ordered none rows out e = let same : out ≡ rows = cc in ap length same
  length-ordered (some order) rows out e = length-sorted_rows order.desc order.key rows out e

  page_of :
      (filters : List (String × Json)) (order : Option Order) (limit : Option ℕ) (offset : ℕ)
      (rows : List Row) (sorted : Result (List Row)) (out : List Row)
      → ordered ops order (filtered ops filters rows) ≡ sorted
      → (t : Store)
      → (continue sorted
          (λ in_order. pure (map visible (limited limit (drop offset in_order))))
          t).0
        ≡ ok out
      → length out ≡ capped limit (length (filtered ops filters rows) - offset)
  unfolding pure
  page_of filters order limit offset rows (raised x) out o t e = absurd (cc)
  page_of filters order limit offset rows (ok sorted) out o t e =
      let same : out ≡ map visible (limited limit (drop offset sorted)) = cc in
      ap length same
      ∙ length-map visible (limited limit (drop offset sorted))
      ∙ length-limited limit (drop offset sorted)
      ∙ ap (capped limit) (
          length-drop offset sorted
          ∙ ap (λ n. n - offset) (length-ordered order (filtered ops filters rows) sorted o))

  page_lem :
      (filters : List (String × Json)) (order : Option Order) (limit : Option ℕ) (offset : ℕ)
      (rows out : List Row) (t : Store)
      → ((settle (ordered ops order (filtered ops filters rows)) >>= λ in_order.
            pure (map visible (limited limit (drop offset in_order))))
          t).0
        ≡ ok out
      → length out ≡ capped limit (length (filtered ops filters rows) - offset)
  unfolding settle ◌>>=◌
  page_lem filters order limit offset rows out t e =
      page_of filters order limit offset rows (ordered ops order (filtered ops filters rows)) out
        refl t e

  count-scanned :
      (filters : List (String × Json)) (s : Store) (rows : List Row)
      → (scan_results ops make_id s).0 ≡ ok rows
      → (count ops make_id filters s).0 ≡ ok (length (filtered ops filters rows))
  unfolding count ◌>>=◌ pure
  count-scanned filters s rows e = rw e refl

  -- Where a query returns, `count` with its filters returns too, and the query gives as many results
  -- as the count leaves after the offset, up to the limit.
  length-query :
      (filters : List (String × Json)) (order : Option Order) (limit : Option ℕ) (offset : ℕ)
      (s : Store) (out : List Row)
      → (query ops make_id filters order limit offset s).0 ≡ ok out
      → (n : ℕ) × ((count ops make_id filters s).0 ≡ ok n)
        × (length out ≡ capped limit (n - offset))
  unfolding query
  length-query filters order limit offset s out e =
      let (rows, scanned, rest) = bind_inv (scan_results ops make_id) _ s out e in
      (
        length (filtered ops filters rows),
        count-scanned filters s rows scanned,
        page_lem filters order limit offset rows out (scan_results ops make_id s).1
            (ap (λ x. x.0) (sym rest) ∙ e),
      )
