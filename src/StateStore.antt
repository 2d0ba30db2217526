-- ===== src/StateStore.antt =====
-- adapter/state_store.py: the key-value store of response chains, which serves from a dict of its
-- own while Redis is not configured or failing. `now` is the value of `time.monotonic()`, in
-- milliseconds, at the call. Redis and the JSON codec are parameters; an answer `none` of Redis stands
-- for an exception. `mem` holds only what `dumps` wrote.
pub mod Backoff
use image_adapter.Base.{
  ℕ, ◌+◌, String, Bool, true, false, ◌&&◌, Option, none, some, List, [], ◌∷◌, leb, ltb, Assoc,
  lookup, insert, remove, if◌then◌else◌,
}
use image_adapter.Text.{blank}
use image_adapter.Value.{Value}

pub record StateStore : Type 0 where
  pub configured : Bool
  pub mem : Assoc (ℕ × String)
  pub redis_retry_at : ℕ

-- _REDIS_RETRY_AFTER
abbrev pub redis_retry_after : ℕ
redis_retry_after = 30000

-- _redis_ready
unfoldable pub redis_ready : ℕ → StateStore → Bool
redis_ready now s = s.configured && leb s.redis_retry_at now

-- _mark_redis_down
unfoldable pub mark_redis_down : ℕ → StateStore → StateStore
mark_redis_down now s = record s { redis_retry_at = now + redis_retry_after }

pub record Redis : Type 1 where
  pub St : Type 0
  pub redis_get : String → St → Option (Option String) × St
  pub redis_set : String → String → ℕ → St → Bool × St
  pub redis_incr : String → ℕ → St → Option ℕ × St

module _ (r : Redis) (dumps : Value → String) (loads : String → Option Value) where
  open r use {St, redis_get, redis_set, redis_incr}

  unfoldable pub mem_entry :
      String → ℕ → Option (ℕ × String) → StateStore → Option Value × StateStore
  unfolding remove
  mem_entry key now none s = (none, s)
  mem_entry key now (some (expires, text)) s =
      if ltb expires now then (none, record s { mem = remove key s.mem }) else (loads text, s)

  -- _mem_get
  unfoldable pub mem_get : String → ℕ → StateStore → Option Value × StateStore
  unfolding mem_entry lookup
  mem_get key now s = mem_entry key now (lookup key s.mem) s

  -- _mem_set
  unfoldable pub mem_set : String → String → ℕ → ℕ → StateStore → StateStore
  unfolding insert
  mem_set key text ttl now s = record s { mem = insert key (now + ttl, text) s.mem }

  -- what `get` does with Redis's answer; a text that is no JSON counts as a failure of Redis
  unfoldable pub after_get :
      String → ℕ → Option (Option String) → StateStore → Option Value × StateStore
  unfolding mem_get mark_redis_down
  after_get key now none s = mem_get key now (mark_redis_down now s)
  after_get key now (some none) s = (none, s)
  after_get key now (some (some text)) s = if blank text then (none, s) else elim (loads text) [
    | some value ↦ (some value, s)
    | none ↦ mem_get key now (mark_redis_down now s)
  ]

  unfoldable pub get : String → ℕ → StateStore → St → (Option Value × StateStore) × St
  unfolding redis_ready mem_get after_get
  get key now s st =
      let (found, st1) = redis_get key st in
      if redis_ready now s then (after_get key now found s, st1) else (mem_get key now s, st)

  unfoldable pub set : String → Value → ℕ → ℕ → StateStore → St → StateStore × St
  unfolding redis_ready mem_set mark_redis_down
  set key value ttl now s st =
      let (stored, st1) = redis_set key (dumps value) ttl st in
      if redis_ready now s
      then ((if stored then s else mem_set key (dumps value) ttl now (mark_redis_down now s)), st1)
      else (mem_set key (dumps value) ttl now s, st)

  -- incr_window
  unfoldable pub incr_window : String → ℕ → ℕ → StateStore → St → (Option ℕ × StateStore) × St
  unfolding redis_ready mark_redis_down
  incr_window key ttl now s st =
      let (count, st1) = redis_incr key ttl st in
      if redis_ready now s
      then (elim count [ some n ↦ (some n, s) | none ↦ (none, mark_redis_down now s) ], st1)
      else ((none, s), st)
