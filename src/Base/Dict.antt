-- ===== src/Base/Dict.antt =====
-- Python's `dict` with text keys, as an association list in insertion order.
use Prim.Native.String.{String}
use mathlib.Core.Path.{◌≡◌, refl}
use mathlib.Core.Logic.{inl, inr}
use mathlib.Core.Bool.{true, ◌||◌}
use mathlib.Core.Option.{Option, none, some}
use mathlib.Core.List.{List, [], ◌∷◌, ◌++◌}
use native.Mathlib.Omega.{arith}
use text.Mathlib.Text.{◌==◌}
use text.Mathlib.TextEquality.{eq_iff}
use image_adapter.Base.Tests.{if◌then◌else◌, is_some, Bool-cases}
use image_adapter.Base.Lists.{elem, distinct, All}

abbrev pub Assoc {ℓ} : Type ℓ → Type ℓ
Assoc V = List (String × V)

module _ {ℓ} {V : Type ℓ} where
  -- d.get(k)
  unfoldable pub lookup : String → Assoc V → Option V
  lookup key [] = none
  lookup key ((other, v) ∷ d) = if other == key then some v else lookup key d

  -- d[k] = v: a key that is there keeps its place
  unfoldable pub insert : String → V → Assoc V → Assoc V
  insert key v [] = (key, v) ∷ []
  insert key v ((other, old) ∷ d) =
      if other == key then (other, v) ∷ d else (other, old) ∷ insert key v d

  -- d.pop(k, None)
  unfoldable pub remove : String → Assoc V → Assoc V
  remove key [] = []
  remove key ((other, old) ∷ d) =
      let rest = remove key d in if other == key then rest else (other, old) ∷ rest

  pub lookup-insert :
      (key other : String) (v : V) (d : Assoc V)
      → lookup other (insert key v d) ≡ (if key == other then some v else lookup other d)
  unfolding lookup insert
  lookup-insert key other v [] = refl
  lookup-insert key other v ((here, old) ∷ d) =
      ground
        (arith, eq_iff key other, eq_iff here key, eq_iff here other, lookup-insert key other v d)

  pub lookup-remove :
      (key other : String) (d : Assoc V)
      → lookup other (remove key d) ≡ (if key == other then none else lookup other d)
  unfolding lookup remove
  lookup-remove key other [] = ground arith
  lookup-remove key other ((here, old) ∷ d) =
      ground
        (arith, eq_iff key other, eq_iff here key, eq_iff here other, lookup-remove key other d)

  unfoldable pub keys : Assoc V → List String
  keys [] = []
  keys ((key, v) ∷ d) = key ∷ keys d

  -- k in d
  pub elem-keys : (key : String) (d : Assoc V) → elem key (keys d) ≡ is_some (lookup key d)
  unfolding keys lookup
  elem-keys key [] = refl
  elem-keys key ((other, v) ∷ d) = ground (arith, elem-keys key d)

  -- a new key is added at the end
  pub insert_fresh :
      (key : String) (v : V) (d : Assoc V)
      → lookup key d ≡ none
      → insert key v d ≡ d ++ (key, v) ∷ []
  unfolding lookup insert
  insert_fresh key v [] h = refl
  insert_fresh key v ((other, old) ∷ d) h = ground (arith, insert_fresh key v d)

  pub elem-keys-insert :
      (other key : String) (v : V) (d : Assoc V)
      → elem other (keys (insert key v d)) ≡ (elem other (keys d) || key == other)
  unfolding keys insert
  elem-keys-insert other key v [] = ground arith
  elem-keys-insert other key v ((here, old) ∷ d) =
      ground (
        arith,
        elem-keys-insert other key v d,
        eq_iff here key,
        eq_iff here other,
        eq_iff key other,
      )

  -- a dict never holds a key twice
  pub keys-insert-distinct :
      (key : String) (v : V) (d : Assoc V)
      → distinct (keys d) ≡ true
      → distinct (keys (insert key v d)) ≡ true
  unfolding keys insert
  keys-insert-distinct key v [] h = refl
  keys-insert-distinct key v ((other, old) ∷ d) h = ground (
    arith,
    keys-insert-distinct key v d,
    elem-keys-insert other key v d,
    eq_iff other key,
    eq_iff key other,
  )

  -- an entry that is found satisfies what every entry does
  pub All-lookup {κ} :
      (P : String × V → Type κ) (key : String) (v : V) (d : Assoc V)
      → All P d
      → lookup key d ≡ some v
      → P (key, v)
  unfolding lookup
  All-lookup P key v [] h e = absurd (cc)
  All-lookup P key v ((other, old) ∷ d) (p, h) e = elim (Bool-cases (other == key)) [
    | inl same ↦
        let found : some old ≡ some v = rw same at e in
        let value : old ≡ v = cc in
        let key : other ≡ key = (eq_iff other key).0 same in rw (← key, ← value) p
    | inr other ↦ All-lookup P key v d h (rw other at e)
  ]
