-- ===== src/Vendors/Outcomes.antt =====
-- What the results of a script's steps say of the steps before them.
use image_adapter.Base.{
  ℕ, ◌||◌, ◌≡◌, refl, ap, List, [], ◌∷◌, inl, inr, Bool-cases, eqb, leb, length,
}
use image_adapter.Errors
use image_adapter.Errors.{Result, ok, err, crash, >>=-eq-ok}
use image_adapter.Engine.{Exec, proceed}
use image_adapter.Vendors.Context.{serial, run_all, first_failure, fan_out}

-- a step that went well goes on from a result of the step before it
pub proceed-eq-ok :
    {S A B : Type 0} (r : Result A) (f : A → Exec S B) (s : S) {b : B}
    → (proceed r f s).0 ≡ ok b
    → (x : A) × (r ≡ ok x) × ((f x s).0 ≡ ok b)
proceed-eq-ok (ok x) f s h = (x, refl, h)
proceed-eq-ok (err e) f s h = absurd (cc)
proceed-eq-ok crash f s h = absurd (cc)

-- Two lists that a relation holds between, item by item.
module _ {A B : Type 0} (Q : A → B → Type 0) where
  abbrev pub Pairs : List A → List B → Type 0
  Pairs [] [] = Unit
  Pairs (x ∷ xs) (y ∷ ys) = Q x y × Pairs xs ys
  Pairs xs ys = ⊥

module _ {S A B : Type 0} (work : A → Exec S B) where
  -- The same for a relation that depends on the state: each item's is the one that the work on the items
  -- before it leaves.
  abbrev pub Chain : (A → S → B → Type 0) → List A → S → List B → Type 0
  Chain Q [] s [] = Unit
  Chain Q (x ∷ xs) s (y ∷ ys) = Q x s y × Chain Q xs (work x s).1 ys
  Chain Q xs s ys = ⊥

  Pairs-Chain :
      (Q : A → B → Type 0) (xs : List A) (s : S) (ys : List B)
      → Chain (λ x t y. Q x y) xs s ys
      → Pairs Q xs ys
  Pairs-Chain Q [] s [] h = tt
  Pairs-Chain Q [] s (y ∷ ys) h = absurd h
  Pairs-Chain Q (x ∷ xs) s [] h = absurd h
  Pairs-Chain Q (x ∷ xs) s (y ∷ ys) (q, h) = (q, Pairs-Chain Q xs (work x s).1 ys h)

  module _ (Q : A → S → B → Type 0)
      (each : (x : A) (s : S) (b : B) → (work x s).0 ≡ ok b → Q x s b) where
    serial-Chain :
        (xs : List A) (s : S) (bs : List B) → (serial work xs s).0 ≡ ok bs → Chain Q xs s bs
    unfolding serial
    serial-Chain [] s [] h = tt
    serial-Chain [] s (b ∷ bs) h = absurd (cc)
    serial-Chain (x ∷ xs) s out h =
        let (b, e, k) =
          proceed-eq-ok (work x s).0
            (λ b. λ next.
              proceed (serial work xs next).0 (λ bs. λ last. (ok (b ∷ bs), last))
                (serial work xs next).1)
            (work x s).1 h in
        let (bs, e', k') =
          proceed-eq-ok (serial work xs (work x s).1).0 (λ bs. λ last. (ok (b ∷ bs), last))
            (serial work xs (work x s).1).1 k in
        let same : b ∷ bs ≡ out = cc k' in
        rw (← same) (each x s b e, serial-Chain xs (work x s).1 bs e')

    first_failure-Chain :
        (xs : List A) (s : S) (bs : List B)
        → first_failure (run_all work xs s).0 ≡ ok bs
        → Chain Q xs s bs
    unfolding first_failure run_all
    first_failure-Chain [] s [] h = tt
    first_failure-Chain [] s (b ∷ bs) h = absurd (cc)
    first_failure-Chain (x ∷ xs) s out h =
        let rest = (run_all work xs (work x s).1).0 in
        let (b, e, k) =
          >>=-eq-ok (work x s).0 (λ b. Errors.◌>>=◌ (first_failure rest) (λ bs. ok (b ∷ bs))) h in
        let (bs, e', k') = >>=-eq-ok (first_failure rest) (λ bs. ok (b ∷ bs)) k in
        let same : b ∷ bs ≡ out = cc k' in
        rw (← same) (each x s b e, first_failure-Chain xs (work x s).1 bs e')

    pub fan_out-Chain :
        (limit : ℕ) (xs : List A) (s : S) (bs : List B)
        → (fan_out limit work xs s).0 ≡ ok bs
        → Chain Q xs s bs
    unfolding fan_out
    fan_out-Chain limit xs s bs h = elim (Bool-cases (leb limit 1 || eqb (length xs) 1)) [
      | inl single ↦ serial-Chain xs s bs (rw single at h)
      | inr many ↦ first_failure-Chain xs s bs (rw many at h)
    ]

pub fan_out-Pairs :
    {S A B : Type 0} (Q : A → B → Type 0) (work : A → Exec S B)
    → ((x : A) (s : S) (b : B) → (work x s).0 ≡ ok b → Q x b)
    → (limit : ℕ) (xs : List A) (s : S) (bs : List B) → (fan_out limit work xs s).0 ≡ ok bs
    → Pairs Q xs bs
fan_out-Pairs Q work each limit xs s bs h =
    Pairs-Chain work Q xs s bs (fan_out-Chain work (λ x t y. Q x y) each limit xs s bs h)

pub proceed-ok :
    {S A B : Type 0} (r : Result A) (f : A → Exec S B) (s : S) {x : A}
    → r ≡ ok x
    → proceed r f s ≡ f x s
proceed-ok r f s e = ap (λ q. proceed q f s) e
