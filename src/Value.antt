-- ===== src/Value.antt =====
-- The Python values that pass between client, script and vendor. Dict keys are texts; `skip` is the
-- sentinel `ctx.SKIP` of adapter/context.py. A dict is a list of fields in insertion order.
pub mod DictLaws
use image_adapter.Base.{
  ℕ, suc, String, Bool, true, false, not, ◌&&◌, Option, none, some, List, [], ◌∷◌, eqb, ◌==◌,
  if◌then◌else◌, is_empty,
}
use image_adapter.Text.{blank}
use image_adapter.Float.{Float, fin}
use image_adapter.Float

-- `negsuc n` is -(n + 1).
pub data ℤ : Type 0 where
  pos : ℕ → ℤ
  negsuc : ℕ → ℤ

abbrev pub Bytes : Type 0
Bytes = List ℕ

mutual
  pub data Value : Type 0 where
    null : Value
    skip : Value
    bool : Bool → Value
    int : ℤ → Value
    float : Float → Value
    str : String → Value
    bytes : Bytes → Value
    list : Items → Value
    dict : Fields → Value

  pub data Items : Type 0 where
    nil : Items
    cons : Value → Items → Items

  pub data Fields : Type 0 where
    end : Fields
    field : String → Value → Fields → Fields

-- d.get(k)
unfoldable pub get : String → Fields → Option Value
get k end = none
get k (field j v d) = if j == k then some v else get k d

-- d.get(k), with None for a missing key
abbrev pub get_or_null : String → Fields → Value
get_or_null k d = elim (get k d) [ none ↦ null | some v ↦ v ]

-- d[k] = v
unfoldable pub put : String → Value → Fields → Fields
put k v end = field k v end
put k v (field j w d) = if j == k then field j v d else field j w (put k v d)

-- d.pop(k, None)
unfoldable pub pop : String → Fields → Fields
pop k end = end
pop k (field j w d) = let rest = pop k d in if j == k then rest else field j w rest

-- d.setdefault(k, v)
unfoldable pub set_default : String → Value → Fields → Fields
unfolding get put
set_default k v d = elim (get k d) [ none ↦ put k v d | some w ↦ d ]

unfoldable pub size : Fields → ℕ
size end = 0
size (field k v d) = suc (size d)

abbrev pub no_fields : Fields → Bool
no_fields end = true
no_fields (field k v d) = false

abbrev pub no_items : Items → Bool
no_items nil = true
no_items (cons v vs) = false

-- `if v`; the sentinel is falsy
unfoldable pub truthy : Value → Bool
unfolding Float.truthy
truthy null = false
truthy skip = false
truthy (bool b) = b
truthy (int (pos n)) = not (eqb n 0)
truthy (int (negsuc n)) = true
truthy (float x) = Float.truthy x
truthy (str s) = not (blank s)
truthy (bytes b) = not (is_empty b)
truthy (list vs) = not (no_items vs)
truthy (dict d) = not (no_fields d)

abbrev pub is_null : Value → Bool
is_null null = true
is_null v = false

abbrev pub is_dict : Value → Bool
is_dict (dict d) = true
is_dict v = false

-- isinstance(v, (dict, list))
abbrev pub is_json : Value → Bool
is_json (dict d) = true
is_json (list vs) = true
is_json v = false

-- the number that a value compares as
abbrev pub number : Value → Option ℤ
number (bool true) = some (pos 1)
number (bool false) = some (pos 0)
number (int n) = some n
number v = none

abbrev pub int_eq : Option ℤ → Option ℤ → Bool
int_eq (some (pos a)) (some (pos b)) = eqb a b
int_eq (some (negsuc a)) (some (negsuc b)) = eqb a b
int_eq a b = false

abbrev pub float_eq : Float → Float → Bool
float_eq (fin a) (fin b) = eqb a b
float_eq Float.inf Float.inf = true
float_eq a b = false

abbrev pub bytes_eq : Bytes → Bytes → Bool
bytes_eq [] [] = true
bytes_eq (a ∷ as_) (b ∷ bs) = eqb a b && bytes_eq as_ bs
bytes_eq a b = false

-- v == w. A dict's order does not count. Floats are compared with floats only.
unfoldable mutual
  pub value_eq : Value → Value → Bool
  value_eq null w = is_null w
  value_eq skip w = elim w [ skip ↦ true | _ ↦ false ]
  value_eq (bool b) w = int_eq (number (bool b)) (number w)
  value_eq (int n) w = int_eq (some n) (number w)
  value_eq (float x) w = elim w [ float y ↦ float_eq x y | _ ↦ false ]
  value_eq (str s) w = elim w [ str t ↦ s == t | _ ↦ false ]
  value_eq (bytes a) w = elim w [ bytes b ↦ bytes_eq a b | _ ↦ false ]
  value_eq (list vs) w = elim w [ list ws ↦ items_eq vs ws | _ ↦ false ]
  value_eq (dict d) w = elim w [ dict e ↦ eqb (size d) (size e) && fields_in d e | _ ↦ false ]

  pub items_eq : Items → Items → Bool
  items_eq nil ws = no_items ws
  items_eq (cons v vs) ws = elim ws [ nil ↦ false | cons w ws ↦ value_eq v w && items_eq vs ws ]

  -- every field of the first is in the second, with an equal value
  pub fields_in : Fields → Fields → Bool
  fields_in end e = true
  fields_in (field k v d) e = elim (get k e) [
    | none ↦ false
    | some w ↦ value_eq v w && fields_in d e
  ]
