-- ===== src/ProxyPlan/Coverage.antt =====
-- What the patterns of a parsed bypass list match.
use image_adapter.Base.{
  String, true, false, ◌≡◌, refl, ◌⊎◌, List, [], ◌∷◌, ◌++◌, arith, eq_iff, elem, distinct, All,
  All-append, inl, inr, Bool-cases,
}
use image_adapter.Text.{strip, lower, blank, split, has_char}
use image_adapter.Errors.{ok, >>=-eq-ok}
use image_adapter.ModelMap.{wildcard}
use image_adapter.ProxyPlan.{is_wildcard_shape, check_pattern, parse_items, dedup, parse_hosts}

-- A pattern that `host_matches` can act on.
pub record IsPattern (pattern : String) : Type 0 where
  pub filled : blank pattern ≡ false
  pub shape : (has_char b'*' pattern ≡ false) ⊎ (is_wildcard_shape pattern ≡ true)
  pub bare :
      (pattern ≡ wildcard)
      ⊎ ((has_char b'/' pattern ≡ false)
          × (has_char b':' pattern ≡ false)
          × (has_char b'@' pattern ≡ false))

check_pattern-IsPattern :
    (header pattern : String)
    → blank pattern ≡ false
    → check_pattern header pattern ≡ ok tt
    → IsPattern pattern
unfolding check_pattern
check_pattern-IsPattern header pattern f h = record {
  filled = f;
  shape = ground arith;
  bare = ground (arith, eq_iff pattern wildcard);
}

parse_items-IsPattern :
    (header : String) (items patterns out : List String)
    → All IsPattern patterns
    → parse_items header items patterns ≡ ok out
    → All IsPattern out
unfolding parse_items
parse_items-IsPattern header [] patterns out a h =
    let same : patterns ≡ out = ground arith in rw (← same) a
parse_items-IsPattern header (item ∷ items) patterns out a h =
    elim (Bool-cases (blank (lower (strip item)))) [
      | inl empty ↦ parse_items-IsPattern header items patterns out a (rw empty at h)
      | inr given ↦
          let (u, checked, rest) =
            >>=-eq-ok (check_pattern header (lower (strip item))) _ (rw given at h) in
          parse_items-IsPattern header items (patterns ++ lower (strip item) ∷ []) out
            (All-append IsPattern patterns (lower (strip item) ∷ []) a
              (check_pattern-IsPattern header (lower (strip item)) given checked, tt))
            rest
    ]

dedup-All {ℓ} : (P : String → Type ℓ) (seen ps : List String) → All P ps → All P (dedup seen ps)
unfolding dedup
dedup-All P seen [] a = tt
dedup-All P seen (p ∷ ps) (h, a) = elim (Bool-cases (elem p seen)) [
  | inl old ↦ rw old (dedup-All P seen ps a)
  | inr new ↦ rw new (h, dedup-All P (p ∷ seen) ps a)
]

elem-dedup :
    (k : String) (seen ps : List String) → elem k seen ≡ true → elem k (dedup seen ps) ≡ false
unfolding dedup
elem-dedup k seen [] h = refl
elem-dedup k seen (p ∷ ps) h =
    ground (arith, eq_iff p k, elem-dedup k seen ps, elem-dedup k (p ∷ seen) ps)

dedup-distinct : (seen ps : List String) → distinct (dedup seen ps) ≡ true
unfolding dedup
dedup-distinct seen [] = refl
dedup-distinct seen (p ∷ ps) = ground (
  arith,
  eq_iff p p,
  dedup-distinct seen ps,
  dedup-distinct (p ∷ seen) ps,
  elem-dedup p (p ∷ seen) ps,
)

-- Every pattern that `parse_hosts` returns is filled and is a bare host, `*` or `*.suffix`, with no
-- scheme, port or credential, and none occurs twice.
parse_hosts-IsPattern :
    (raw header : String) (out : List String)
    → parse_hosts raw header ≡ ok out
    → All IsPattern out × (distinct out ≡ true)
unfolding parse_hosts
parse_hosts-IsPattern raw header out h =
    let (patterns, parsed, same) = >>=-eq-ok (parse_items header (split b',' raw) []) _ h in
    let eq : dedup [] patterns ≡ out = ground arith in
    rw (← eq) (
      dedup-All IsPattern [] patterns
          (parse_items-IsPattern header (split b',' raw) [] patterns tt parsed),
      dedup-distinct [] patterns,
    )
