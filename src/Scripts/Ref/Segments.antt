-- ===== src/Scripts/Ref/Segments.antt =====
-- What a parsed ref is: segments that stay below the root of a store.
use Prim.Native.Char.{code}
use Prim.Native.String.{[], ◌∷◌}
use image_adapter.Base.{
  ℕ, zero, suc, ◌≤◌, String, Bool, true, false, ◌||◌, Option, none, some, List, [], ◌∷◌, eqb, all,
  length, is_empty, All, if◌then◌else◌, Bool-cases, inl, inr, ◌≡◌, ◌≢◌, refl, sym, ap, ◌∙◌, arith,
}
use mathlib.Core.Path.{subst}
use image_adapter.Text.{blank, split, partition, has_char}
use image_adapter.Errors.{ok}
use image_adapter.Scripts.Ref.{
  is_ref_char, matches_rest, matches_ref, max_segments, ParsedRef, written_segments, check_ref,
  parse_ref,
}

-- A name of one directory or file: no separator of paths, no NUL, and neither `.` nor `..`.
pub record IsSegment (s : String) : Type 0 where
  pub filled : blank s ≡ false
  pub no_slash : has_char 47 s ≡ false
  pub no_backslash : has_char 92 s ≡ false
  pub no_nul : has_char 0 s ≡ false
  pub no_dot : s ≢ "."
  pub no_dots : s ≢ ".."

-- a character that no segment may have
abbrev is_barred : ℕ → Bool
is_barred k = eqb k 47 || eqb k 92 || eqb k 0

is_ref_char_barred : (k c : ℕ) → is_barred k ≡ true → is_ref_char c ≡ true → eqb c k ≡ false
is_ref_char_barred k c bar fine = ground (arith, bar, fine)

matches_rest-lacks :
    (k n : ℕ) (s : String) → is_barred k ≡ true → matches_rest n s ≡ true → has_char k s ≡ false
unfolding matches_rest has_char
matches_rest-lacks k n [] bar h = refl
matches_rest-lacks k zero (c ∷ []) bar h = ground (arith, bar, h)
matches_rest-lacks k zero (c ∷ d ∷ s) bar h = absurd (ground (arith, h))
matches_rest-lacks k (suc n) (c ∷ []) bar h =
    ground (arith, bar, h, is_ref_char_barred k (code c) bar)
matches_rest-lacks k (suc n) (c ∷ d ∷ s) bar h =
    ground (arith, bar, h, is_ref_char_barred k (code c) bar, matches_rest-lacks k n (d ∷ s) bar)

matches_ref-lacks :
    (k : ℕ) (s : String) → is_barred k ≡ true → matches_ref s ≡ true → has_char k s ≡ false
unfolding matches_ref has_char
matches_ref-lacks k [] bar h = refl
matches_ref-lacks k (c ∷ s) bar h =
    ground (arith, bar, h, is_ref_char_barred k (code c) bar, matches_rest-lacks k 63 s bar)

matches_ref-filled : (s : String) → matches_ref s ≡ true → blank s ≡ false
unfolding matches_ref
matches_ref-filled [] h = absurd (cc)
matches_ref-filled (c ∷ s) h = refl

true≢false : true ≢ false
true≢false h = cc

matches_ref-IsSegment : (s : String) → matches_ref s ≡ true → IsSegment s
unfolding matches_ref
matches_ref-IsSegment s h = record {
  filled = matches_ref-filled s h;
  no_slash = matches_ref-lacks 47 s refl h;
  no_backslash = matches_ref-lacks 92 s refl h;
  no_nul = matches_ref-lacks 0 s refl h;
  no_dot = λ same. true≢false (sym h ∙ ap matches_ref same);
  no_dots = λ same. true≢false (sym h ∙ ap matches_ref same);
}

all-All : (parts : List String) → all matches_ref parts ≡ true → All IsSegment parts
all-All [] h = tt
all-All (p ∷ ps) h = (matches_ref-IsSegment p (ground (arith, h)), all-All ps (ground (arith, h)))

-- What a ref that parses is.
pub record IsRef (ref : ParsedRef) : Type 0 where
  pub some_parts : is_empty ref.parts ≡ false
  pub few_parts : length ref.parts ≤ max_segments
  pub segments : All IsSegment ref.parts
  pub version : (v : String) → ref.version ≡ some v → IsSegment v

abbrev filled_version : String → Option String
filled_version version = if blank version then none else some version

some-injective : {A : Type 0} {a b : A} → Path (Option A) (some a) (some b) → a ≡ b
some-injective h = cc

version-IsSegment :
    (version v : String)
    → (blank version || matches_ref version) ≡ true
    → filled_version version ≡ some v
    → IsSegment v
version-IsSegment version v h e = elim (Bool-cases (blank version)) [
  | inl empty ↦ absurd (ground (arith, e, empty))
  | inr full ↦
      subst IsSegment (some-injective (rw full at e))
        (matches_ref-IsSegment version (ground (arith, h, full)))
]

check_ref-IsRef :
    (raw version : String) (parts : List String) (sep : Bool) (ref : ParsedRef)
    → check_ref raw parts sep version ≡ ok ref
    → IsRef ref × (ref.raw ≡ raw)
unfolding check_ref
check_ref-IsRef raw version parts sep ref h =
    let legal : all matches_ref parts ≡ true = ground (arith, h) in
    let version_legal : (blank version || matches_ref version) ≡ true = ground (arith, h) in
    let is : record { raw = raw; parts = parts; version = filled_version version } ≡ ref =
      ground (arith, h) in
    subst (λ r. IsRef r × (r.raw ≡ raw)) is
      (
        record {
          some_parts = ground (arith, h);
          few_parts = ground (arith, h);
          segments = all-All parts legal;
          version = λ v e. version-IsSegment version v version_legal e;
        },
        refl,
      )

-- A ref that parses has one to four segments and perhaps a version, each of them a name of one file or
-- directory: no `/`, `\` or NUL stands in it, and it is neither empty nor `.` nor `..`. So no path that
-- is joined from them leaves the root of a store by their names.
parse_ref-IsRef :
    (text : String) (ref : ParsedRef) → parse_ref text ≡ ok ref → IsRef ref × (ref.raw ≡ text)
unfolding parse_ref
parse_ref-IsRef text ref h =
    let halves = partition b'@' text in
    check_ref-IsRef text halves.tail (written_segments (split b'/' halves.head)) halves.found ref h
