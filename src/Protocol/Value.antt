-- ===== src/Protocol/Value.antt =====
-- The Python values that the program puts into dictionaries, and the conversions that it makes
-- of them. A conversion of a value that the annotated type does not allow is `none`.
use stock_statistic.Common.{
  ℕ, ◌≡◌, refl, ap, Bool, true, false, ◌||◌, Option, none, some, List, [], ◌∷◌, ◌==◌, not,
  if◌then◌else◌,
}
use stock_statistic.Common.Integer.{ℤ, pos, negsuc}
use stock_statistic.Common.Text.{Text, text_eq}
use stock_statistic.Common.Dict.{Dict}

-- A float that the modelled code only stores and passes on: its 64-bit pattern.
pub record Float : Type 0 where
  pub bits : ℕ

-- An object that the modelled code never looks into, such as a data frame.
abbrev pub Object : Type 0
Object = ℕ

mutual
  pub data Value : Type 0 where
    null : Value
    bool : Bool → Value
    int : ℤ → Value
    float : Float → Value
    text : Text → Value
    object : Object → Value
    list : Items → Value
    dict : Fields → Value

  pub data Items : Type 0 where
    nil : Items
    cons : Value → Items → Items

  pub data Fields : Type 0 where
    empty : Fields
    field : Text → Value → Fields → Fields

unfoldable pub of_items : List Value → Items
of_items [] = nil
of_items (v ∷ vs) = cons v (of_items vs)

unfoldable pub to_items : Items → List Value
to_items nil = []
to_items (cons v vs) = v ∷ to_items vs

unfoldable pub of_fields : Dict Value → Fields
of_fields [] = empty
of_fields ((k, v) ∷ d) = field k v (of_fields d)

unfoldable pub to_fields : Fields → Dict Value
to_fields empty = []
to_fields (field k v d) = (k, v) ∷ to_fields d

pub to_items-of_items : (vs : List Value) → to_items (of_items vs) ≡ vs
unfolding to_items of_items
to_items-of_items [] = refl
to_items-of_items (v ∷ vs) = ap (λ l. v ∷ l) (to_items-of_items vs)

pub to_fields-of_fields : (d : Dict Value) → to_fields (of_fields d) ≡ d
unfolding to_fields of_fields
to_fields-of_fields [] = refl
to_fields-of_fields ((k, v) ∷ d) = ap (λ l. (k, v) ∷ l) (to_fields-of_fields d)

-- `d.get(k, default)` of a dictionary value
unfoldable pub field_or : Text → Value → Fields → Value
field_or k v empty = v
field_or k v (field j w d) = if text_eq j k then w else field_or k v d

abbrev pub as_text : Value → Option Text
as_text (text t) = some t
as_text _ = none

abbrev pub as_opt_text : Value → Option (Option Text)
as_opt_text null = some none
as_opt_text (text t) = some (some t)
as_opt_text _ = none

abbrev pub as_nat : Value → Option ℕ
as_nat (int (pos n)) = some n
as_nat _ = none

abbrev pub as_opt_nat : Value → Option (Option ℕ)
as_opt_nat null = some none
as_opt_nat (int (pos n)) = some (some n)
as_opt_nat _ = none

abbrev pub as_int : Value → Option ℤ
as_int (int z) = some z
as_int _ = none

abbrev pub as_float : Value → Option Float
as_float (float f) = some f
as_float _ = none

-- The test of a float in a Boolean context: neither zero.
abbrev pub float_nonzero : Float → Bool
float_nonzero f = not (f.bits == 0 || f.bits == 0x8000000000000000)

-- `bool(v)`. The test of an object may raise, as a data frame's does.
abbrev pub as_bool : Value → Option Bool
as_bool null = some false
as_bool (bool b) = some b
as_bool (int (pos n)) = some (not (n == 0))
as_bool (int (negsuc n)) = some true
as_bool (float f) = some (float_nonzero f)
as_bool (text []) = some false
as_bool (text (c ∷ t)) = some true
as_bool (object o) = none
as_bool (list nil) = some false
as_bool (list (cons v vs)) = some true
as_bool (dict empty) = some false
as_bool (dict (field k v d)) = some true

unfoldable pub texts_of : Items → Option (List Text)
texts_of nil = some []
texts_of (cons (text t) vs) = elim (texts_of vs) [ none ↦ none | some ts ↦ some (t ∷ ts) ]
texts_of (cons _ vs) = none

unfoldable pub of_texts : List Text → Items
of_texts [] = nil
of_texts (t ∷ ts) = cons (text t) (of_texts ts)

pub texts_of-of_texts : (ts : List Text) → texts_of (of_texts ts) ≡ some ts
unfolding texts_of of_texts
texts_of-of_texts [] = refl
texts_of-of_texts (t ∷ ts) = rw (texts_of-of_texts ts)

-- A dictionary of lists, such as a parameter grid.
unfoldable pub of_grid : Dict (List Value) → Fields
unfolding of_items
of_grid [] = empty
of_grid ((k, vs) ∷ d) = field k (list (of_items vs)) (of_grid d)

unfoldable pub grid_of : Fields → Option (Dict (List Value))
unfolding to_items
grid_of empty = some []
grid_of (field k (list vs) d) = elim (grid_of d) [
  | none ↦ none
  | some g ↦ some ((k, to_items vs) ∷ g)
]
grid_of (field k _ d) = none

pub grid_of-of_grid : (d : Dict (List Value)) → grid_of (of_grid d) ≡ some d
unfolding grid_of of_grid
grid_of-of_grid [] = refl
grid_of-of_grid ((k, vs) ∷ d) = rw (grid_of-of_grid d, to_items-of_items vs)
