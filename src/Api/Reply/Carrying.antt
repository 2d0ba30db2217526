-- ===== src/Api/Reply/Carrying.antt =====
-- What of a reply is carried over to what wraps it.
use image_adapter.Base.{
  String, false, Option, none, some, List, elem, if◌then◌else◌, ◌==◌, not, ◌&&◌, ◌∙◌, Option-cases,
  ◌≡◌, refl, ap, arith, eq_iff, Bool-cases, inl, inr,
}
use image_adapter.Value.{Value, Fields, end, field, get, set_default, is_null}
use image_adapter.Value.DictLaws.{get-put}
use image_adapter.Api.Reply.{carry_over}

get-set_default :
    (k j : String) (v : Value) (d : Fields)
    → get j (set_default k v d)
      ≡ elim (get j d) [ none ↦ (if k == j then some v else none) | some w ↦ some w ]
unfolding set_default
get-set_default k j v d = ground (arith, get-put k j v d, eq_iff k j)

-- a key that is there stays
pub carry_over_keeps :
    (handled : List String) (payload out : Fields) (k : String) (w : Value)
    → get k out ≡ some w
    → get k (carry_over handled payload out) ≡ some w
unfolding carry_over
carry_over_keeps handled end out k w h = h
carry_over_keeps handled (field j v payload) out k w h =
    carry_over_keeps handled payload _ k w (ground (arith, h, get-set_default j k v out))

some-injective : {A : Type 0} {a b : A} → Path (Option A) (some a) (some b) → a ≡ b
some-injective h = cc

-- a key that the wrapper neither sets nor handles travels on
pub carry_over_carries :
    (handled : List String) (payload out : Fields) (k : String) (w : Value)
    → elem k handled ≡ false
    → get k out ≡ none
    → get k payload ≡ some w
    → is_null w ≡ false
    → get k (carry_over handled payload out) ≡ some w
unfolding carry_over get
carry_over_carries handled end out k w free unset there full = absurd (cc)
carry_over_carries handled (field j v payload) out k w free unset there full =
    elim (Bool-cases (j == k)) [
      | inl same ↦
          let at : v ≡ w = some-injective (ground (arith, there, same)) in
          let key : j ≡ k = (eq_iff j k).0 same in
          carry_over_keeps handled payload _ k w (
            ground (
              arith,
              get-set_default j k v out,
              unset,
              same,
              at,
              full,
              ap (λ x. elem x handled) key,
              free,
            ))
      | inr other ↦
          carry_over_carries handled payload _ k w free
            (ground (arith, unset, other, get-set_default j k v out)) (ground (arith, there, other))
            full
    ]

-- the first value under a key that is not null
unfoldable pub filled : String → Fields → Option Value
filled k end = none
filled k (field j v d) = let rest = filled k d in if j == k && not (is_null v) then some v else rest

-- what a key of the wrapper's is, or else what the reply has under it, if it is not handled
abbrev pub carried : List String → Fields → String → Option Value → Option Value
carried handled payload k (some own) = some own
carried handled payload k none = if elem k handled then none else filled k payload

carried-field :
    (handled : List String) (payload out : Fields) (j : String) (v : Value) (k : String)
    → carried handled payload k
        (get k (if not (elem j handled) && not (is_null v) then set_default j v out else out))
      ≡ carried handled (field j v payload) k (get k out)
unfolding filled
carried-field handled payload out j v k =
    let default = get-set_default j k v out in
    elim (Bool-cases (j == k)) [
      | inl same ↦
          let equal : j ≡ k = (eq_iff j k).0 same in
          elim (Option-cases (get k out)) [
            | inl unset ↦ ground (arith, default, same, ap (λ x. elem x handled) equal, unset)
            | inr (w, set) ↦ ground (arith, default, same, set)
          ]
      | inr other ↦ elim (Option-cases (get k out)) [
        | inl unset ↦ ground (arith, default, other, unset)
        | inr (w, set) ↦ ground (arith, default, other, set)
      ]
    ]

pub carry_over-carried :
    (handled : List String) (payload out : Fields) (k : String)
    → get k (carry_over handled payload out) ≡ carried handled payload k (get k out)
unfolding carry_over filled
carry_over-carried handled end out k = elim (Option-cases (get k out)) [
  | inl unset ↦ rw unset ground arith
  | inr (v, set) ↦ rw set refl
]
carry_over-carried handled (field j v payload) out k =
    let takes = not (elem j handled) && not (is_null v) in
    carry_over-carried handled payload (if takes then set_default j v out else out) k
    ∙ carried-field handled payload out j v k
