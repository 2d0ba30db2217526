-- ===== src/Float.antt =====
-- The `float` values that the adapter compares: times and the numbers of a payload. A number
-- counts ticks, so rounding is left out. `neg` stands for every negative number: the code looks
-- at a negative number only to see that it is one.
pub mod Laws
use image_adapter.Base.{ℕ, ◌-◌, Bool, true, false, ltb, eqb, not, if◌then◌else◌}

pub data Float : Type 0 where
  nan : Float
  neg : Float
  fin : ℕ → Float
  inf : Float

-- a < b: false whenever a side is `nan`
unfoldable pub lt : Float → Float → Bool
lt neg (fin b) = true
lt neg inf = true
lt (fin a) (fin b) = ltb a b
lt (fin a) inf = true
lt a b = false

-- a <= 0
unfoldable pub le_zero : Float → Bool
le_zero neg = true
le_zero (fin a) = eqb a 0
le_zero a = false

-- `if a`: only 0.0 is falsy
unfoldable pub truthy : Float → Bool
truthy (fin a) = not (eqb a 0)
truthy a = true

-- Python's `min(a, b)` and `max(a, b)` keep the first argument unless the second is beyond it.
unfoldable pub min : Float → Float → Float
unfolding lt
min a b = if lt b a then b else a

unfoldable pub max : Float → Float → Float
unfolding lt
max a b = if lt a b then b else a

-- max(0.0, a - e), for an elapsed time `e`
unfoldable pub left_after : Float → ℕ → Float
left_after (fin a) e = fin (a - e)
left_after inf e = inf
left_after nan e = fin 0
left_after neg e = fin 0
