-- ===== src/Sizes/Tiers.antt =====
-- The order of tiers and its sort.
use image_adapter.Base.{true, false, List, [], ◌∷◌, All, Bool-cases, inl, inr, ◌≡◌, refl, arith}
use image_adapter.Value.{ℤ, pos, negsuc}
use image_adapter.Sizes.{int_leb, Ranked, place, sort}

pub int_leb_refl : (a : ℤ) → int_leb a a ≡ true
int_leb_refl (pos a) = ground arith
int_leb_refl (negsuc a) = ground arith

pub int_leb_trans : (a b c : ℤ) → int_leb a b ≡ true → int_leb b c ≡ true → int_leb a c ≡ true
int_leb_trans (pos a) (pos b) (pos c) h k = ground (arith, h, k)
int_leb_trans (pos a) (pos b) (negsuc c) h k = absurd (cc)
int_leb_trans (pos a) (negsuc b) c h k = absurd (cc)
int_leb_trans (negsuc a) b (pos c) h k = refl
int_leb_trans (negsuc a) (pos b) (negsuc c) h k = absurd (cc)
int_leb_trans (negsuc a) (negsuc b) (negsuc c) h k = ground (arith, h, k)

pub int_leb_total : (a b : ℤ) → int_leb a b ≡ false → int_leb b a ≡ true
int_leb_total (pos a) (pos b) h = ground (arith, h)
int_leb_total (pos a) (negsuc b) h = refl
int_leb_total (negsuc a) (pos b) h = absurd (cc)
int_leb_total (negsuc a) (negsuc b) h = ground (arith, h)

-- a bound of all
abbrev pub AtLeast : ℤ → List Ranked → Type 0
AtLeast n = All (λ pair. int_leb n pair.0 ≡ true)

abbrev pub IsSorted : List Ranked → Type 0
IsSorted [] = Unit {0}
IsSorted (pair ∷ rest) = AtLeast pair.0 rest × IsSorted rest

module _ (P : Ranked → Type 0) where
  All-place : (pair : Ranked) (rest : List Ranked) → P pair → All P rest → All P (place pair rest)
  unfolding place
  All-place pair [] p h = (p, tt)
  All-place pair (other ∷ rest) p (q, h) = elim (Bool-cases (int_leb pair.0 other.0)) [
    | inl below ↦ rw below (p, (q, h))
    | inr above ↦ rw above (q, All-place pair rest p h)
  ]

  All_of_place :
      (pair : Ranked) (rest : List Ranked) → All P (place pair rest) → P pair × All P rest
  unfolding place
  All_of_place pair [] h = h
  All_of_place pair (other ∷ rest) h = elim (Bool-cases (int_leb pair.0 other.0)) [
    | inl below ↦ rw below at h
    | inr above ↦
        let (q, k) : P other × All P (place pair rest) = rw above at h in
        let (p, m) = All_of_place pair rest k in (p, (q, m))
  ]

  pub All_of_sort : (ranked : List Ranked) → All P (sort ranked) → All P ranked
  unfolding sort
  All_of_sort [] h = tt
  All_of_sort (pair ∷ rest) h =
      let (p, k) = All_of_place pair (sort rest) h in (p, All_of_sort rest k)

  pub All-sort : (ranked : List Ranked) → All P ranked → All P (sort ranked)
  unfolding sort
  All-sort [] h = tt
  All-sort (pair ∷ rest) (p, h) = All-place pair (sort rest) p (All-sort rest h)

AtLeast-below :
    (a b : ℤ) (rest : List Ranked) → int_leb a b ≡ true → AtLeast b rest → AtLeast a rest
AtLeast-below a b [] h k = tt
AtLeast-below a b (pair ∷ rest) h (p, k) =
    (int_leb_trans a b pair.0 h p, AtLeast-below a b rest h k)

place-IsSorted : (pair : Ranked) (rest : List Ranked) → IsSorted rest → IsSorted (place pair rest)
unfolding place
place-IsSorted pair [] h = (tt, tt)
place-IsSorted pair (other ∷ rest) (low, h) = elim (Bool-cases (int_leb pair.0 other.0)) [
  | inl below ↦ rw below ((below, AtLeast-below pair.0 other.0 rest below low), (low, h))
  | inr above ↦ rw above (
    All-place (λ p. int_leb other.0 p.0 ≡ true) pair rest (int_leb_total pair.0 other.0 above) low,
    place-IsSorted pair rest h,
  )
]

pub sort-IsSorted : (ranked : List Ranked) → IsSorted (sort ranked)
unfolding sort
sort-IsSorted [] = tt
sort-IsSorted (pair ∷ rest) = place-IsSorted pair (sort rest) (sort-IsSorted rest)
