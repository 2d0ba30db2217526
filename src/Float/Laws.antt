-- ===== src/Float/Laws.antt =====
-- `left_after` is what `max(0.0, total - elapsed)` computes.
use image_adapter.Base.{ℕ, ◌-◌, ◌≡◌, refl, arith, ltb, if◌then◌else◌}
use image_adapter.Float.{Float, nan, neg, fin, inf, max, left_after}

-- a - e for a time e; a difference below 0 is `neg`
abbrev pub minus : Float → ℕ → Float
minus nan e = nan
minus neg e = neg
minus inf e = inf
minus (fin a) e = if ltb a e then neg else fin (a - e)

pub left_after-eq-max : (a : Float) (e : ℕ) → left_after a e ≡ max (fin 0) (minus a e)
unfolding left_after max
left_after-eq-max nan e = refl
left_after-eq-max neg e = refl
left_after-eq-max inf e = refl
left_after-eq-max (fin a) e = ground arith
