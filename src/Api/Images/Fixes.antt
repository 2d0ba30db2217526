-- ===== src/Api/Images/Fixes.antt =====
-- What the checks on an images body change, and what they leave alone.
use image_adapter.Base.{
  ◌≡◌, ◌∙◌, refl, sym, ◌⊎◌, inl, inr, String, Bool, true, false, none, some, [], ◌∷◌, elem, ◌==◌,
  arith, eq_iff, Bool-cases, Option-cases,
}
use mathlib.Core.Path.{subst}
use image_adapter.Value.{Value, null, int, pos, Fields, get, get_or_null}
use image_adapter.Value.DictLaws.{get-put, get-pop, pop_absent}
use image_adapter.Api.Images.{is_count, fix_count, is_format, fix_format, is_unset, fix_image}

-- The three fixes, and what they leave alone.
pub fix_count-counted : (body : Fields) → is_count (get "n" (fix_count body)) ≡ true
unfolding fix_count
fix_count-counted body = elim (Bool-cases (is_count (get "n" body))) [
  | inl good ↦ rw (good, good)
  | inr bad ↦ rw (bad, get-put "n" "n" (int (pos 1)) body) refl
]

fix_format-formatted :
    (body : Fields)
    → (get "response_format" (fix_format body) ≡ none)
      ⊎ (is_format (get_or_null "response_format" (fix_format body)) ≡ true)
unfolding fix_format
fix_format-formatted body = elim (Bool-cases (is_format (get_or_null "response_format" body))) [
  | inl good ↦ inr (rw (good, good))
  | inr bad ↦ inl (rw (bad, get-pop "response_format" "response_format" body) refl)
]

-- a key that the checks never write
abbrev pub is_fixed : String → Bool
is_fixed key = elem key ("n" ∷ "response_format" ∷ "image" ∷ [])

get-fix_count :
    (k : String) (body : Fields) → ("n" == k) ≡ false → get k (fix_count body) ≡ get k body
unfolding fix_count
get-fix_count k body h = ground (arith, get-put "n" k (int (pos 1)) body)

pub get-fix_format :
    (k : String) (body : Fields)
    → ("response_format" == k) ≡ false
    → get k (fix_format body) ≡ get k body
unfolding fix_format
get-fix_format k body h = ground (arith, get-pop "response_format" k body)

pub get-fix_image :
    (k : String) (body : Fields) → ("image" == k) ≡ false → get k (fix_image body) ≡ get k body
unfolding fix_image
get-fix_image k body h = ground (arith, get-pop "image" k body)

-- all three
abbrev pub fix_all : Fields → Fields
fix_all body = fix_image (fix_format (fix_count body))

pub get-fix_all :
    (k : String) (body : Fields) → is_fixed k ≡ false → get k (fix_all body) ≡ get k body
get-fix_all k body h =
    get-fix_image k (fix_format (fix_count body)) (ground (arith, h))
    ∙ get-fix_format k (fix_count body) (ground (arith, h))
    ∙ get-fix_count k body (ground (arith, h))

-- the image of the fixed body: none, or one that is set
pub image-fix_all :
    (body : Fields)
    → (get "image" (fix_all body) ≡ none)
      ⊎ ((v : Value) × (get "image" (fix_all body) ≡ some v) × (is_unset v ≡ false))
unfolding fix_image
image-fix_all body =
    let before = fix_format (fix_count body) in
    elim (Bool-cases (is_unset (get_or_null "image" before))) [
      | inl unset ↦ inl (rw (unset, get-pop "image" "image" before) refl)
      | inr set ↦ elim (Option-cases (get "image" before)) [
        | inl missing ↦ absurd (ground (arith, set, missing))
        | inr (v, there) ↦ inr (v, rw set there, ground (arith, set, there))
      ]
    ]

pub formatted_kept :
    (body : Fields)
    → (get "response_format" (fix_all body) ≡ none)
      ⊎ (is_format (get_or_null "response_format" (fix_all body)) ≡ true)
formatted_kept body =
    let before = fix_format (fix_count body) in
    let same = get-fix_image "response_format" before refl in
    subst (λ o. (o ≡ none) ⊎ (is_format (elim o [ none ↦ null | some v ↦ v ]) ≡ true)) (sym same)
      (fix_format-formatted (fix_count body))

pub fix_format_formatted :
    (body : Fields)
    → (get "response_format" body ≡ none) ⊎ (is_format (get_or_null "response_format" body) ≡ true)
    → fix_format body ≡ body
unfolding fix_format
fix_format_formatted body (inl absent) = ground (arith, absent, pop_absent "response_format" body)
fix_format_formatted body (inr good) = rw good refl

pub fix_all-none : (k : String) (body : Fields) → get k body ≡ none → get k (fix_all body) ≡ none
unfolding fix_count fix_format fix_image
fix_all-none k body h =
    let counted = fix_count body in
    let formatted = fix_format counted in
    let a : get k counted ≡ none = elim (Bool-cases ("n" == k)) [
      | inl same ↦ rw (subst (λ j. get j body ≡ none) (sym ((eq_iff "n" k).0 same)) h) h
      | inr other ↦ get-fix_count k body other ∙ h
    ] in
    let b : get k formatted ≡ none = ground (arith, a, get-pop "response_format" k counted) in
    ground (arith, b, get-pop "image" k formatted)
