-- ===== src/Sizes/Fitting.antt =====
-- Which tier is chosen.
use image_adapter.Base.{
  Bool, true, false, List, [], ◌∷◌, All, Bool-cases, inl, inr, ◌⊎◌, ◌≡◌, refl, sym, ◌∙◌,
}
use mathlib.Core.Path.{subst}
use image_adapter.Value.{ℤ}
use image_adapter.Sizes.{
  int_leb, Ranked, keep_if, first_of, last_of, Policy, clamp, escalate, choose,
}
use image_adapter.Sizes.Tiers.{int_leb_refl, int_leb_trans, AtLeast, IsSorted}

-- Under `clamp` the wanted count is a ceiling: the highest tier that is not above it, or the lowest of
-- all where every tier is. Under `escalate` it is a floor: the lowest tier that is not below it, or the
-- highest of all where every tier is.
abbrev pub IsFit : Policy → ℤ → ℤ → List Ranked → Type 0
IsFit clamp want v ranked =
    ((int_leb v want ≡ true) × All (λ p. int_leb p.0 want ≡ true → int_leb p.0 v ≡ true) ranked)
    ⊎ (All (λ p. int_leb p.0 want ≡ false) ranked × All (λ p. int_leb v p.0 ≡ true) ranked)
IsFit escalate want v ranked =
    ((int_leb want v ≡ true) × All (λ p. int_leb want p.0 ≡ true → int_leb v p.0 ≡ true) ranked)
    ⊎ (All (λ p. int_leb want p.0 ≡ false) ranked × All (λ p. int_leb p.0 v ≡ true) ranked)

abbrev pub IsIn : Ranked → List Ranked → Type 0
IsIn pair [] = ⊥
IsIn pair (other ∷ rest) = (other ≡ pair) ⊎ IsIn pair rest

-- what a test keeps of a list
pub keep_if-true :
    (test : ℤ → Bool) (p : Ranked) (rest : List Ranked)
    → test p.0 ≡ true
    → keep_if test (p ∷ rest) ≡ p ∷ keep_if test rest
keep_if-true test p rest h = rw h refl

pub keep_if-false :
    (test : ℤ → Bool) (p : Ranked) (rest : List Ranked)
    → test p.0 ≡ false
    → keep_if test (p ∷ rest) ≡ keep_if test rest
keep_if-false test p rest h = rw h refl

module _ (want : ℤ) where
  abbrev pub below : ℤ → Bool
  below n = int_leb n want

  abbrev pub above : ℤ → Bool
  above n = int_leb want n

  -- a tier below the ceiling with no higher one in the list, and not lower than another tier
  abbrev IsHighest : Ranked → List Ranked → Ranked → Type 0
  IsHighest other tiers r =
      (int_leb r.0 want ≡ true)
      × All (λ p. int_leb p.0 want ≡ true → int_leb p.0 r.0 ≡ true) tiers
      × (int_leb other.0 r.0 ≡ true)

  -- the last tier below the ceiling, after one that is
  last_below :
      (other : Ranked) (sorted : List Ranked)
      → IsSorted sorted
      → AtLeast other.0 sorted
      → int_leb other.0 want ≡ true
      → IsHighest other sorted (last_of other (keep_if below sorted))
  last_below other [] s low h = (h, tt, int_leb_refl other.0)
  last_below other (p ∷ rest) (lowest, s) (under, low) h = elim (Bool-cases (int_leb p.0 want)) [
    | inl fits ↦
        let (a, b, c) = last_below p rest s lowest fits in
        subst (λ kept. IsHighest other (p ∷ rest) (last_of other kept))
          (sym (keep_if-true below p rest fits))
          (a, (λ e. c, b), int_leb_trans other.0 p.0 _ under c)
    | inr over ↦
        let (a, b, c) = last_below other rest s low h in
        subst (λ kept. IsHighest other (p ∷ rest) (last_of other kept))
          (sym (keep_if-false below p rest over)) (a, (λ e. absurd (cc (e, over)), b), c)
  ]

  -- nothing is below a ceiling that the lowest is above
  none_below :
      (n : ℤ) (rest : List Ranked)
      → int_leb n want ≡ false
      → AtLeast n rest
      → (keep_if (λ m. int_leb m want) rest ≡ []) × All (λ p. int_leb p.0 want ≡ false) rest
  none_below n [] over low = (refl, tt)
  none_below n (p ∷ rest) over (here, low) =
      let (a, b) = none_below n rest over low in
      let above : int_leb p.0 want ≡ false = elim (Bool-cases (int_leb p.0 want)) [
        | inl fits ↦ absurd (cc (int_leb_trans n p.0 want here fits, over))
        | inr e ↦ e
      ] in
      (rw above a, (above, b))

  implied :
      (n : ℤ) (sorted : List Ranked)
      → AtLeast n sorted
      → All (λ q. int_leb want q.0 ≡ true → int_leb n q.0 ≡ true) sorted
  implied n [] h = tt
  implied n (q ∷ sorted) (here, h) = (λ e. here, implied n sorted h)

  abbrev IsLowest : Ranked → List Ranked → Ranked → Type 0
  IsLowest other tiers r =
      ((int_leb want r.0 ≡ true)
        × All (λ p. int_leb want p.0 ≡ true → int_leb r.0 p.0 ≡ true) tiers)
      ⊎ (All (λ p. int_leb want p.0 ≡ false) tiers × (r ≡ other))

  -- the first tier above the floor, or the stand-in
  first_above :
      (other : Ranked) (sorted : List Ranked)
      → IsSorted sorted
      → IsLowest other sorted (first_of other (keep_if above sorted))
  first_above other [] s = inr (tt, refl)
  first_above other (p ∷ rest) (lowest, s) = elim (Bool-cases (int_leb want p.0)) [
    | inl fits ↦
        subst (λ kept. IsLowest other (p ∷ rest) (first_of other kept))
          (sym (keep_if-true above p rest fits))
          (inl (fits, (λ e. int_leb_refl p.0, implied p.0 rest lowest)))
    | inr under ↦
        subst (λ kept. IsLowest other (p ∷ rest) (first_of other kept))
          (sym (keep_if-false above p rest under))
          (elim (first_above other rest s) [
            | inl (a, b) ↦ inl (a, (λ e. absurd (cc (e, under)), b))
            | inr (a, b) ↦ inr ((under, a), b)
          ])
  ]

-- the last of a sorted list is above the others
last_highest :
    (lowest : Ranked) (rest : List Ranked)
    → IsSorted rest
    → AtLeast lowest.0 rest
    → (int_leb lowest.0 (last_of lowest rest).0 ≡ true)
      × All (λ p. int_leb p.0 (last_of lowest rest).0 ≡ true) rest
last_highest lowest [] s low = (int_leb_refl lowest.0, tt)
last_highest lowest (p ∷ rest) (lowest2, s) (below, low) =
    let (a, b) = last_highest p rest s lowest2 in (int_leb_trans lowest.0 p.0 _ below a, (a, b))

pub choose-IsFit :
    (policy : Policy) (want : ℤ) (lowest : Ranked) (rest : List Ranked)
    → IsSorted (lowest ∷ rest)
    → IsFit policy want (choose policy want lowest rest).0 (lowest ∷ rest)
unfolding choose
choose-IsFit clamp want lowest rest (low, s) = elim (Bool-cases (int_leb lowest.0 want)) [
  | inl fits ↦
      let (a, b, c) = last_below want lowest rest s low fits in
      subst (λ kept. IsFit clamp want (last_of lowest kept).0 (lowest ∷ rest))
        (sym (keep_if-true (below want) lowest rest fits)) (inl (a, (λ e. c, b)))
  | inr over ↦
      let (a, b) = none_below want lowest.0 rest over low in
      subst (λ kept. IsFit clamp want (last_of lowest kept).0 (lowest ∷ rest))
        (sym (keep_if-false (below want) lowest rest over ∙ a))
        (inr ((over, b), (int_leb_refl lowest.0, low)))
]
choose-IsFit escalate want lowest rest (low, s) =
    elim (first_above want (last_of lowest rest) (lowest ∷ rest) (low, s)) [
      | inl fits ↦ inl fits
      | inr (under, is) ↦
          let (a, b) = last_highest lowest rest s low in
          subst (λ r. IsFit escalate want r.0 (lowest ∷ rest)) (sym is) (inr (under, (a, b)))
    ]
