-- ===== src/Fallback.antt =====
-- adapter/storage/fallback_store.py: FallbackStore as a state machine. The two stores and the clock are
-- part of an operation: how each store would answer, and what the clock says when it is read. Logs and
-- telemetry are left out.
pub mod Outage
use image_adapter.Base.{
  ℕ, ◌+◌, Bool, true, false, not, Option, none, some, List, [], ◌∷◌, ltb, if◌then◌else◌,
}
use image_adapter.Errors.{Result, ok, err, crash}

pub record FallbackStore : Type 0 where
  pub cooldown : ℕ
  pub parked_until : ℕ

-- the clock at the check, and where the park is set
pub record Times : Type 0 where
  pub checked : ℕ
  pub parked : ℕ

-- how a probe of the primary ends: True, False, or an exception
pub data Probe : Type 0 where
  healthy : Probe
  unusable : Probe
  failed : Probe

-- FallbackStore._parked
abbrev pub is_parked : ℕ → FallbackStore → Bool
is_parked now s = ltb now s.parked_until

-- FallbackStore._park
unfoldable pub park : ℕ → FallbackStore → FallbackStore
park now s = record s { parked_until = now + s.cooldown }

-- FallbackStore._unpark
unfoldable pub unpark : FallbackStore → FallbackStore
unpark s = record s { parked_until = 0 }

-- FallbackStore.ping
unfoldable pub ping : Times → Probe → Bool → FallbackStore → Bool × FallbackStore
unfolding park unpark
ping times healthy secondary s = (true, unpark s)
ping times failed secondary s = (secondary, park times.parked s)
ping times unusable secondary s =
    (secondary, if is_parked times.checked s then s else park times.parked s)

-- An answer, and whether the primary was asked for it.
pub record Served (A : Type 0) : Type 0 where
  pub asked : Bool
  pub result : Result A

pub data Operation (A : Type 0) : Type 0 where
  put_op : Times → Result A → Result A → Operation A
  ping_op : Times → Probe → Bool → Operation A

module _ {A : Type 0} where
  -- FallbackStore._attempt, and the secondary where it fell over
  unfoldable pub attempt : ℕ → Result A → Result A → FallbackStore → Served A × FallbackStore
  unfolding park unpark
  attempt parked (ok stored) secondary s = (record { asked = true; result = ok stored }, unpark s)
  attempt parked primary secondary s = (record { asked = true; result = secondary }, park parked s)

  -- FallbackStore.put
  unfoldable pub put : Times → Result A → Result A → FallbackStore → Served A × FallbackStore
  unfolding attempt
  put times primary secondary s =
      if is_parked times.checked s
      then (record { asked = false; result = secondary }, s)
      else attempt times.parked primary secondary s

  -- the answers to the puts of a run
  unfoldable pub run : List (Operation A) → FallbackStore → List (Served A) × FallbackStore
  unfolding put ping
  run [] s = ([], s)
  run (put_op times primary secondary ∷ rest) s =
      let (served, next) = put times primary secondary s in
      let (answers, last) = run rest next in (served ∷ answers, last)
  run (ping_op times probe secondary ∷ rest) s = run rest (ping times probe secondary s).1
