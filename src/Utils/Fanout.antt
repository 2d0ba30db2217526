-- ===== src/Utils/Fanout.antt =====
-- adapter/utils/fanout.py: fanout, for work whose outcome does not hang on the order in which items are
-- done. A call is an item that work was started on.
use image_adapter.Base.{
  ℕ, Bool, ◌||◌, List, [], ◌∷◌, map, eqb, leb, length, if◌then◌else◌, Bool-cases, inl, inr, ◌≡◌,
  refl, ap,
}
use image_adapter.Errors.{Result, ok, ◌>>=◌}

module _ {A B : Type 0} (work : A → Result B) where
  -- the list comprehension, which stops at a failure, and the items that it got to
  unfoldable pub one_by_one : List A → Result (List B)
  one_by_one [] = ok []
  one_by_one (item ∷ items) = work item >>= λ b. one_by_one items >>= λ bs. ok (b ∷ bs)

  -- the loop that raises the first exception among the outcomes
  unfoldable pub raise_first : List (Result B) → Result (List B)
  raise_first [] = ok []
  raise_first (outcome ∷ outcomes) = outcome >>= λ b. raise_first outcomes >>= λ bs. ok (b ∷ bs)

  -- max(1, limit) == 1
  abbrev pub is_single : ℕ → Bool
  is_single limit = leb limit 1

  unfoldable pub fanout : ℕ → List A → Result (List B)
  unfolding one_by_one raise_first
  fanout limit items =
      if is_single limit || eqb (length items) 1
      then one_by_one items
      else raise_first (map work items)

  raise_first-map : (items : List A) → raise_first (map work items) ≡ one_by_one items
  unfolding raise_first one_by_one
  raise_first-map [] = refl
  raise_first-map (item ∷ items) =
      ap (λ rest. work item >>= λ b. rest >>= λ bs. ok (b ∷ bs)) (raise_first-map items)

  -- Whatever the limit, zero included, the fan-out ends as the serial loop does: with the results in the
  -- order of the items, or with the failure of the earliest item that fails.
  fanout-one_by_one : (limit : ℕ) (items : List A) → fanout limit items ≡ one_by_one items
  unfolding fanout
  fanout-one_by_one limit items = elim (Bool-cases (is_single limit || eqb (length items) 1)) [
    | inl single ↦ rw single refl
    | inr many ↦ rw many (raise_first-map items)
  ]
