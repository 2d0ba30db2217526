-- ===== src/Budget.antt =====
-- adapter/budget.py: the time budget that the stages of one request share. `now` is the value of
-- `time.monotonic()` at the call.
pub mod Spending
use image_adapter.Base.{ℕ, ◌-◌, Bool, Option, none, some, if◌then◌else◌, or_else}
use image_adapter.Float.{Float, le_zero, min, left_after}

pub record Budget : Type 0 where
  pub total : Float
  pub started : ℕ

unfoldable pub elapsed : Budget → ℕ → ℕ
elapsed b now = now - b.started

unfoldable pub remaining : Budget → ℕ → Float
unfolding elapsed left_after
remaining b now = left_after b.total (elapsed b now)

unfoldable pub exhausted : Budget → ℕ → Bool
unfolding remaining le_zero
exhausted b now = le_zero (remaining b now)

unfoldable pub cap : Budget → ℕ → Float → Float
unfolding remaining min
cap b now timeout = min timeout (remaining b now)

unfoldable pub resolve_total : Option Float → Float → Float → Float
unfolding le_zero min
resolve_total requested default ceiling =
    let total = or_else requested default in min (if le_zero total then default else total) ceiling
