-- ===== src/Storage/Json.antt =====
-- The values that `json.load` gives and `json.dump` takes, with Python's `==`, truth and `get`.
-- A number, int or float, is known by the comparisons of `FloatOps`; True and False compare as 1
-- and 0. The fields of an object have different keys.
use kitt.Prelude.{
  ℕ, suc, String, Bool, true, false, Option, none, some, List, [], ◌∷◌, eqb, if◌then◌else◌, ◌==◌,
  ◌&&◌, lookup,
}
use kitt.Prelude.Floats.{Float, FloatOps, zero_float}
use kitt.Prelude.Text.{same_text}
use kitt.Prelude.Paths.{same_bool, text_before}

mutual
  pub data Json : Type 0 where
    null : Json
    boolean : Bool → Json
    number : Float → Json
    text : List ℕ → Json
    array : Items → Json
    object : Fields → Json

  pub data Items : Type 0 where
    nil : Items
    cons : Json → Items → Items

  pub data Fields : Type 0 where
    end : Fields
    field : String → Json → Fields → Fields

-- A dictionary of the top level.
abbrev pub Row : Type 0
Row = List (String × Json)

abbrev pub to_row : Fields → Row
to_row end = []
to_row (field k v fs) = (k, v) ∷ to_row fs

abbrev pub to_fields : Row → Fields
to_fields [] = end
to_fields ((k, v) ∷ r) = field k v (to_fields r)

abbrev pub or_json : Option Json → Json → Json
or_json none default = default
or_json (some v) default = v

-- r.get(k, default)
unfoldable pub get_or : String → Row → Json → Json
unfolding lookup
get_or k r default = or_json (lookup k r) default

find_field : String → Fields → Option Json
find_field k end = none
find_field k (field j v fs) = if j == k then some v else find_field k fs

count_fields : Fields → ℕ
count_fields end = 0
count_fields (field k v fs) = suc (count_fields fs)

module _ (ops : FloatOps) where
  -- int(b), where the float is the number's value
  unfoldable pub bool_number : Bool → Float
  bool_number true = ops.literal (b'1' ∷ [])
  bool_number false = zero_float ops

  same_number : Float → Float → Bool
  same_number a b = ops.fle a b && ops.fle b a

  unfoldable mutual
    unfolding same_number bool_number same_text find_field count_fields

    -- a == b
    pub same : Json → Json → Bool
    same null null = true
    same (boolean b) (boolean c) = same_bool b c
    same (boolean b) (number x) = same_number (bool_number b) x
    same (number x) (boolean b) = same_number x (bool_number b)
    same (number x) (number y) = same_number x y
    same (text s) (text t) = same_text s t
    same (array xs) (array ys) = same_items xs ys
    same (object fs) (object gs) = eqb (count_fields fs) (count_fields gs) && all_in fs gs
    same _ _ = false

    pub same_items : Items → Items → Bool
    same_items nil nil = true
    same_items (cons x xs) (cons y ys) = same x y && same_items xs ys
    same_items _ _ = false

    pub all_in : Fields → Fields → Bool
    all_in end gs = true
    all_in (field k v fs) gs =
        elim (find_field k gs) [ none ↦ false | some w ↦ same v w ] && all_in fs gs

  -- bool(v)
  unfoldable pub truthy : Json → Bool
  unfolding same_number
  truthy null = false
  truthy (boolean b) = b
  truthy (number x) = elim (same_number x (zero_float ops)) [ true ↦ false | false ↦ true ]
  truthy (text []) = false
  truthy (array nil) = false
  truthy (object end) = false
  truthy _ = true

  unfoldable mutual
    unfolding same_number bool_number same_text find_field count_fields same same_items all_in
        text_before

    -- a < b, `none` for the TypeError of values that have no order
    pub less : Json → Json → Option Bool
    less (boolean b) (boolean c) = some (ops.flt (bool_number b) (bool_number c))
    less (boolean b) (number x) = some (ops.flt (bool_number b) x)
    less (number x) (boolean b) = some (ops.flt x (bool_number b))
    less (number x) (number y) = some (ops.flt x y)
    less (text s) (text t) = some (text_before s t)
    less (array xs) (array ys) = less_items xs ys
    less _ _ = none

    -- By the first items that differ, or else by the lengths.
    pub less_items : Items → Items → Option Bool
    less_items xs nil = some false
    less_items nil (cons y ys) = some true
    less_items (cons x xs) (cons y ys) = elim (same x y) [
      | true ↦ less_items xs ys
      | false ↦ less x y
    ]
