-- ===== src/Sizes/Choices.antt =====
-- What `fit_tier` returns.
use image_adapter.Base.{
  ℕ, ◌≢◌, String, Bool, false, Option, none, List, [], ◌∷◌, All, Bool-cases, inl, inr, ◌⊎◌, ◌≡◌,
  refl, sym,
}
use mathlib.Core.Path.{subst}
use image_adapter.Errors.{ok-injective, ok, >>=-inversion}
use image_adapter.Value.{ℤ, Value, Items}
use image_adapter.Sizes.{
  Scaled, int_leb, Ranked, place, sort, keep_if, first_of, last_of, Policy, clamp, escalate, choose,
  chosen, choose_sorted, rank, fit_tier,
}
use image_adapter.Sizes.Tiers.{IsSorted, All_of_sort, All-sort, sort-IsSorted}
use image_adapter.Sizes.Fitting.{
  IsFit, IsIn, keep_if-true, keep_if-false, below, above, choose-IsFit,
}

-- a property of all tiers is one of the chosen tier
last_of-All :
    (P : Ranked → Type 0) (other : Ranked) (rest : List Ranked)
    → P other
    → All P rest
    → P (last_of other rest)
last_of-All P other [] p h = p
last_of-All P other (pair ∷ rest) p (q, h) = last_of-All P pair rest q h

first_of-All :
    (P : Ranked → Type 0) (other : Ranked) (rest : List Ranked)
    → P other
    → All P rest
    → P (first_of other rest)
first_of-All P other [] p h = p
first_of-All P other (pair ∷ rest) p (q, h) = q

keep_if-All :
    (P : Ranked → Type 0) (test : ℤ → Bool) (tiers : List Ranked)
    → All P tiers
    → All P (keep_if test tiers)
keep_if-All P test [] h = tt
keep_if-All P test (pair ∷ rest) (p, h) = elim (Bool-cases (test pair.0)) [
  | inl kept ↦ subst (All P) (sym (keep_if-true test pair rest kept)) (p, keep_if-All P test rest h)
  | inr dropped ↦
      subst (All P) (sym (keep_if-false test pair rest dropped)) (keep_if-All P test rest h)
]

choose-All :
    (P : Ranked → Type 0) (policy : Policy) (want : ℤ) (lowest : Ranked) (rest : List Ranked)
    → All P (lowest ∷ rest)
    → P (choose policy want lowest rest)
unfolding choose
choose-All P clamp want lowest rest (p, h) =
    last_of-All P lowest _ p (keep_if-All P (below want) (lowest ∷ rest) (p, h))
choose-All P escalate want lowest rest (p, h) =
    first_of-All P (last_of lowest rest) _ (last_of-All P lowest rest p h)
      (keep_if-All P (above want) (lowest ∷ rest) (p, h))

All-IsIn :
    (more tiers : List Ranked)
    → ((p : Ranked) → IsIn p tiers → IsIn p more)
    → All (λ p. IsIn p more) tiers
All-IsIn more [] h = tt
All-IsIn more (pair ∷ rest) h = (h pair (inl refl), All-IsIn more rest (λ p e. h p (inr e)))

-- what a choice among tiers is
abbrev pub IsChoice : Policy → ℤ → List Ranked → Option Value × Bool → Type 0
IsChoice policy want ranked out =
    ((ranked ≡ []) × (out ≡ (none, false)))
    ⊎ ((pair : Ranked) × IsIn pair ranked
        × IsFit policy want pair.0 ranked
        × (out ≡ chosen want pair))

sort-IsFit :
    (policy : Policy) (want v : ℤ) (ranked : List Ranked)
    → IsFit policy want v (sort ranked)
    → IsFit policy want v ranked
sort-IsFit clamp want v ranked (inl (a, b)) = inl (a, All_of_sort _ ranked b)
sort-IsFit clamp want v ranked (inr (a, b)) = inr (All_of_sort _ ranked a, All_of_sort _ ranked b)
sort-IsFit escalate want v ranked (inl (a, b)) = inl (a, All_of_sort _ ranked b)
sort-IsFit escalate want v ranked (inr (a, b)) =
    inr (All_of_sort _ ranked a, All_of_sort _ ranked b)

place-filled : (pair : Ranked) (rest : List Ranked) → place pair rest ≢ []
unfolding place
place-filled pair [] h = cc
place-filled pair (other ∷ rest) h = elim (Bool-cases (int_leb pair.0 other.0)) [
  | inl under ↦ cc (rw under at h)
  | inr over ↦ cc (rw over at h)
]

sort_empty : (ranked : List Ranked) → sort ranked ≡ [] → ranked ≡ []
unfolding sort
sort_empty [] h = refl
sort_empty (pair ∷ rest) h = absurd (place-filled pair (sort rest) h)

choose_sorted-IsChoice :
    (policy : Policy) (want : ℤ) (ranked sorted : List Ranked)
    → sort ranked ≡ sorted
    → IsChoice policy want ranked (choose_sorted policy want sorted)
choose_sorted-IsChoice policy want ranked [] e = inl (sort_empty ranked e, refl)
choose_sorted-IsChoice policy want ranked (lowest ∷ rest) e =
    let pair = choose policy want lowest rest in
    let fit = choose-IsFit policy want lowest rest (subst IsSorted e (sort-IsSorted ranked)) in
    let here =
      choose-All (λ p. IsIn p ranked) policy want lowest rest
        (subst (All (λ p. IsIn p ranked)) e
          (All-sort (λ p. IsIn p ranked) ranked (All-IsIn ranked ranked (λ p e. e)))) in
    inr (
      pair,
      here,
      sort-IsFit policy want pair.0 ranked (subst (IsFit policy want pair.0) (sym e) fit),
      refl,
    )

-- Of the tiers that can be compared, `fit_tier` chooses one: under `clamp` the highest that is not above
-- the wanted count, or the lowest of all where every tier is above it; under `escalate` the lowest that is
-- not below it, or the highest of all where every tier is. It says whether that tier differs from the
-- count, and chooses none only where no tier can be compared.
pub fit_tier-IsChoice :
    (scaled : String → ℕ → Scaled) (policy : Policy) (want : ℤ) (tiers : Items)
    (out : Option Value × Bool)
    → fit_tier scaled policy want tiers ≡ ok out
    → (ranked : List Ranked) × (rank scaled tiers ≡ ok ranked) × IsChoice policy want ranked out
unfolding fit_tier
fit_tier-IsChoice scaled policy want tiers out h =
    >>=-inversion (rank scaled tiers) (λ ranked. ok (choose_sorted policy want (sort ranked))) h
      λ ranked e k. (
        ranked,
        e,
        subst (IsChoice policy want ranked) (ok-injective k)
            (choose_sorted-IsChoice policy want ranked (sort ranked) refl),
      )
