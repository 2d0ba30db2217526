-- ===== src/Budget/Spending.antt =====
-- What the shared budget bounds.
use image_adapter.Base.{
  ℕ, zero, suc, ltb, ◌+◌, ◌≤◌, ◌<◌, ◌≡◌, refl, ◌≢◌, true, Option, none, some, arith, if◌then◌else◌,
}
use image_adapter.Float.{Float, nan, neg, fin, inf}
use image_adapter.Budget.{Budget, exhausted, cap, resolve_total}

-- Whatever number the caller asks for, short of NaN, the budget is positive and within the ceiling,
-- if the deployment's default and ceiling are positive numbers.
resolve_total_bounds :
    (requested : Option Float) (default ceiling : ℕ)
    → requested ≢ some nan
    → 0 < default
    → 0 < ceiling
    → (t : ℕ) × (resolve_total requested (fin default) (fin ceiling) ≡ fin t)
      × (0 < t)
      × (t ≤ ceiling)
unfolding resolve_total
resolve_total_bounds none default ceiling h d c =
    (if ltb ceiling default then ceiling else default, ground arith, ground arith, ground arith)
resolve_total_bounds (some nan) default ceiling h d c = absurd (h refl)
resolve_total_bounds (some neg) default ceiling h d c =
    (if ltb ceiling default then ceiling else default, ground arith, ground arith, ground arith)
resolve_total_bounds (some (fin zero)) default ceiling h d c =
    (if ltb ceiling default then ceiling else default, ground arith, ground arith, ground arith)
resolve_total_bounds (some (fin (suc n))) default ceiling h d c =
    (if ltb ceiling (suc n) then ceiling else suc n, ground arith, ground arith, ground arith)
resolve_total_bounds (some inf) default ceiling h d c = (ceiling, ground arith, c, ground arith)

-- A request for NaN seconds passes both checks of `resolve_total`, and the budget that it makes is
-- spent from the start, whatever the deployment's default and ceiling.
pub resolve_total_nan :
    (default ceiling : Float) (started now : ℕ)
    → exhausted (record { total = resolve_total (some nan) default ceiling; started = started }) now
      ≡ true
unfolding resolve_total exhausted
resolve_total_nan default ceiling started now = ground arith

-- A run of upstream calls under one budget, from one time to a later one. Each call takes at most
-- the timeout that `cap` leaves it.
pub data Calls (b : Budget) (from : ℕ) : ℕ → Type 0 where
  none_yet : Calls b from from
  call :
      {now later : ℕ} (timeout : Float) (limit took : ℕ)
      → Calls b from now
      → exhausted b now ≢ true
      → cap b now timeout ≡ fin limit
      → took ≤ limit
      → later ≡ now + took
      → Calls b from later

cap_within :
    (b : Budget) (now total limit took : ℕ) (timeout : Float)
    → b.total ≡ fin total
    → cap b now timeout ≡ fin limit
    → took ≤ limit
    → b.started ≤ now
    → now ≤ b.started + total
    → now + took ≤ b.started + total
unfolding cap
cap_within b now total limit took timeout t c h s k = ground arith

-- Calls capped by one finite budget that start at a time within it end within it, however many there
-- are and whatever timeouts they ask for.
pub Calls-within :
    {b : Budget} {from now : ℕ} (total : ℕ)
    → b.total ≡ fin total
    → b.started ≤ from
    → from ≤ b.started + total
    → Calls b from now
    → (b.started ≤ now) × (now ≤ b.started + total)
Calls-within total t s h none_yet = (s, h)
Calls-within {b} total t s h (call {now = before} timeout limit took run live c k e) =
    let (since, until) = Calls-within total t s h run in
    (omega arith, rw e (cap_within b before total limit took timeout t c k since until))
