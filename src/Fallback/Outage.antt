-- ===== src/Fallback/Outage.antt =====
-- What a client sees of an outage of the primary store.
use image_adapter.Base.{
  ℕ, ◌+◌, ◌≤◌, ◌<◌, Bool, true, false, List, [], ◌∷◌, All, ◌≡◌, refl, sym, arith,
}
use mathlib.Core.Path.{subst}
use image_adapter.Errors.{Result, ok, err, crash}
use image_adapter.Fallback.{
  FallbackStore, Times, Probe, healthy, unusable, failed, is_parked, park, Served, attempt, put,
  ping, Operation, put_op, ping_op, run,
}

abbrev pub is_healthy : Probe → Bool
is_healthy healthy = true
is_healthy probe = false

-- a probe that finds no recovery keeps the store parked
ping_keeps :
    (failure : ℕ) (times : Times) (probe : Probe) (secondary : Bool) (s : FallbackStore)
    → times.checked < failure + s.cooldown
    → failure ≤ times.parked
    → is_healthy probe ≡ false
    → failure + s.cooldown ≤ s.parked_until
    → ((ping times probe secondary s).1.cooldown ≡ s.cooldown)
      × (failure + s.cooldown ≤ (ping times probe secondary s).1.parked_until)
unfolding ping park
ping_keeps failure times healthy secondary s a b c h = absurd (cc)
ping_keeps failure times failed secondary s a b c h = (refl, omega (arith, b))
ping_keeps failure times unusable secondary s a b c h = rw (still_parked) (refl, h)
  where
    still_parked : is_parked times.checked s ≡ true
    still_parked = ground (arith, a, h)

module _ {A : Type 0} where
  abbrev pub times_of : Operation A → Times
  times_of (put_op times primary secondary) = times
  times_of (ping_op times probe secondary) = times

  abbrev pub is_recovery : Operation A → Bool
  is_recovery (ping_op times probe secondary) = is_healthy probe
  is_recovery op = false

  -- An operation within the cooldown after a failure that finds no recovery.
  abbrev pub IsWithin : ℕ → ℕ → Operation A → Type 0
  IsWithin failure cooldown op =
      ((times_of op).checked < failure + cooldown)
      × (failure ≤ (times_of op).parked)
      × (is_recovery op ≡ false)

  -- the answers of the secondary to the puts of a run
  abbrev pub by_secondary : List (Operation A) → List (Served A)
  by_secondary [] = []
  by_secondary (put_op times primary secondary ∷ rest) =
      record { asked = false; result = secondary } ∷ by_secondary rest
  by_secondary (ping_op times probe secondary ∷ rest) = by_secondary rest

  put_parked :
      (times : Times) (primary secondary : Result A) (s : FallbackStore)
      → is_parked times.checked s ≡ true
      → put times primary secondary s ≡ (record { asked = false; result = secondary }, s)
  unfolding put
  put_parked times primary secondary s h = rw h refl

  -- While the cooldown after a failure runs, and no probe finds the primary healthy, no put asks the
  -- primary: each is answered by the secondary, error included, and the store stays parked at least until
  -- the cooldown is over, however many operations there are.
  run-by_secondary :
      (failure : ℕ) (ops : List (Operation A)) (s : FallbackStore)
      → All (IsWithin failure s.cooldown) ops
      → failure + s.cooldown ≤ s.parked_until
      → ((run ops s).0 ≡ by_secondary ops) × (failure + s.cooldown ≤ (run ops s).1.parked_until)
  unfolding run
  run-by_secondary failure [] s h parked = (refl, parked)
  run-by_secondary failure (put_op times primary secondary ∷ rest) s ((a, b, c), h) parked =
      let (answers, last) = run-by_secondary failure rest s h parked in
      let quiet = put_parked times primary secondary s (ground (arith, a, parked)) in
      subst
        (λ r.
          ((r.0 ∷ (run rest r.1).0) ≡ by_secondary (put_op times primary secondary ∷ rest))
          × (failure + s.cooldown ≤ (run rest r.1).1.parked_until))
        (sym quiet) ((λ i. record { asked = false; result = secondary } ∷ answers i), last)
  run-by_secondary failure (ping_op times probe secondary ∷ rest) s ((a, b, c), h) parked =
      let next = (ping times probe secondary s).1 in
      let (same, still) = ping_keeps failure times probe secondary s a b c parked in
      let (answers, last) =
        run-by_secondary failure rest next (subst (λ n. All (IsWithin failure n) rest) (sym same) h)
          (subst (λ n. failure + n ≤ next.parked_until) (sym same) still) in
      (answers, subst (λ n. failure + n ≤ (run rest next).1.parked_until) same last)

  abbrev pub is_ok : Result A → Bool
  is_ok (ok a) = true
  is_ok result = false

  put_failing :
      (times : Times) (primary secondary : Result A) (s : FallbackStore)
      → is_parked times.checked s ≡ false
      → is_ok primary ≡ false
      → put times primary secondary s
        ≡ (record { asked = true; result = secondary }, park times.parked s)
  unfolding put attempt
  put_failing times (ok a) secondary s free fails = absurd (cc)
  put_failing times (err e) secondary s free fails = rw free refl
  put_failing times crash secondary s free fails = rw free refl

  -- A put that finds the primary failing is answered by the secondary and parks the primary: in any run of
  -- operations within the cooldown after it, none of them a probe that finds the primary healthy, no put
  -- asks the primary, each is answered by the secondary, errors included, and the primary is still parked
  -- for the whole cooldown at the end.
  pub put-run-by_secondary :
      (times : Times) (primary secondary : Result A) (s : FallbackStore) (ops : List (Operation A))
      → is_parked times.checked s ≡ false
      → is_ok primary ≡ false
      → All (IsWithin times.parked s.cooldown) ops
      → ((put times primary secondary s).0 ≡ record { asked = true; result = secondary })
        × ((run ops (put times primary secondary s).1).0 ≡ by_secondary ops)
        × (times.parked + s.cooldown ≤ (run ops (put times primary secondary s).1).1.parked_until)
  unfolding park
  put-run-by_secondary times primary secondary s ops free fails within =
      let (answers, last) =
        run-by_secondary times.parked ops (park times.parked s) within (omega arith) in
      subst
        (λ r.
          (r.0 ≡ record { asked = true; result = secondary })
          × ((run ops r.1).0 ≡ by_secondary ops)
          × (times.parked + s.cooldown ≤ (run ops r.1).1.parked_until))
        (sym (put_failing times primary secondary s free fails)) (refl, answers, last)
