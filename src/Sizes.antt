-- ===== src/Sizes.antt =====
-- adapter/ctxapi/mapping.py: tiers and sizes. `scaled text k` is Python's `int(float(text) * k)`, and
-- `int_of` its `int(text)`.
pub mod Tiers
pub mod Fitting
pub mod Choices
use Prim.Native.Char.{code}
use Prim.Native.String.{[], ◌∷◌}
use image_adapter.Base.{
  ℕ, ◌-◌, String, Bool, true, false, not, ◌&&◌, Option, none, some, List, [], ◌∷◌, leb, eqb, ltb,
  elem, ◌==◌, Assoc, lookup, is_empty, if◌then◌else◌,
}
use image_adapter.Text.{strip, lower, blank, append, take, text_length, ends_with, partition}
use image_adapter.Errors.{Result, ok, crash, ◌>>=◌}
use image_adapter.Value.{ℤ, pos, negsuc, Value, null, bool, int, str, Items, nil, cons, int_eq}
use image_adapter.Transport.{text_of}

-- how `int(float(text) * k)` ends: with a ValueError, with an OverflowError, or with a number
pub data Scaled : Type 0 where
  unreadable : Scaled
  overflow : Scaled
  number : ℤ → Scaled

-- a <= b
abbrev pub int_leb : ℤ → ℤ → Bool
int_leb (pos a) (pos b) = leb a b
int_leb (negsuc a) (negsuc b) = leb b a
int_leb (negsuc a) (pos b) = true
int_leb (pos a) (negsuc b) = false

abbrev pub tier_suffixes : List (String × ℕ)
tier_suffixes = ("px", 1) ∷ ("k", 1024) ∷ ("m", 1048576) ∷ []

-- the text without the first suffix that it has, and its factor
abbrev pub unsuffixed : String → List (String × ℕ) → String × ℕ
unsuffixed text [] = (text, 1)
unsuffixed text ((suffix, factor) ∷ rest) =
    if ends_with text suffix
    then (take (text_length text - text_length suffix) text, factor)
    else unsuffixed text rest

-- the OverflowError is not caught
abbrev pub read_scaled : Scaled → Result (Option ℤ)
read_scaled unreadable = ok none
read_scaled overflow = crash
read_scaled (number n) = ok (some n)

-- a pair of a tier's pixel count and its spelling
abbrev pub Ranked : Type 0
Ranked = ℤ × Value

-- list.sort by the pixel count, which keeps the order of equal ones
unfoldable pub place : Ranked → List Ranked → List Ranked
place pair [] = pair ∷ []
place pair (other ∷ rest) =
    if int_leb pair.0 other.0 then pair ∷ other ∷ rest else other ∷ place pair rest

unfoldable pub sort : List Ranked → List Ranked
unfolding place
sort [] = []
sort (pair ∷ rest) = place pair (sort rest)

-- [pair for pair in ranked if test(pair)]
abbrev pub keep_if : (ℤ → Bool) → List Ranked → List Ranked
keep_if test [] = []
keep_if test (pair ∷ rest) =
    let kept = keep_if test rest in if test pair.0 then pair ∷ kept else kept

-- candidates[0] and candidates[-1]; the first argument stands in for an empty list
abbrev pub first_of : Ranked → List Ranked → Ranked
first_of other [] = other
first_of other (pair ∷ rest) = pair

abbrev pub last_of : Ranked → List Ranked → Ranked
last_of other [] = other
last_of other (pair ∷ rest) = last_of pair rest

pub data Policy : Type 0 where
  clamp : Policy
  escalate : Policy

-- the choice among sorted tiers, the first of them apart
unfoldable pub choose : Policy → ℤ → Ranked → List Ranked → Ranked
choose clamp want lowest rest = last_of lowest (keep_if (λ n. int_leb n want) (lowest ∷ rest))
choose escalate want lowest rest =
    first_of (last_of lowest rest) (keep_if (λ n. int_leb want n) (lowest ∷ rest))

abbrev pub chosen : ℤ → Ranked → Option Value × Bool
chosen want pair = (some pair.1, not (int_eq (some pair.0) (some want)))

abbrev pub choose_sorted : Policy → ℤ → List Ranked → Option Value × Bool
choose_sorted policy want [] = (none, false)
choose_sorted policy want (lowest ∷ rest) = chosen want (choose policy want lowest rest)

module _ (scaled : String → ℕ → Scaled) where
  -- MappingMixin.tier_value of a text
  unfoldable pub text_tier : String → Result (Option ℤ)
  unfolding strip lower ends_with take text_length
  text_tier raw =
      let text = lower (strip raw) in
      let (digits, factor) = unsuffixed text tier_suffixes in
      if blank text then ok none else read_scaled (scaled digits factor)

  -- MappingMixin.tier_value
  unfoldable pub tier_value : Value → Result (Option ℤ)
  unfolding text_tier
  tier_value (int n) = ok (some n)
  tier_value (str s) = text_tier s
  tier_value v = ok none

  abbrev pub add_ranked : Value → Option ℤ → List Ranked → List Ranked
  add_ranked tier none ranked = ranked
  add_ranked tier (some value) ranked = (value, tier) ∷ ranked

  unfoldable pub rank : Items → Result (List Ranked)
  unfolding tier_value
  rank nil = ok []
  rank (cons tier tiers) = do
    value ← tier_value tier
    ranked ← rank tiers
    ok (add_ranked tier value ranked)

  -- MappingMixin.fit_tier
  unfoldable pub fit_tier : Policy → ℤ → Items → Result (Option Value × Bool)
  unfolding rank sort choose
  fit_tier policy want tiers = do ranked ← rank tiers; ok (choose_sorted policy want (sort ranked))
