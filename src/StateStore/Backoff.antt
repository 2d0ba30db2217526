-- ===== src/StateStore/Backoff.antt =====
-- The store while Redis is not used.
use image_adapter.Base.{
  ℕ, ◌+◌, ◌≤◌, ◌<◌, ◌≡◌, refl, String, true, false, ◌&&◌, Option, some, leb, ltb, lookup, insert,
  lookup-insert, arith, eq_refl,
}
use image_adapter.Value.{Value}
use image_adapter.StateStore.{
  StateStore, redis_ready, mark_redis_down, redis_retry_after, Redis, mem_get, mem_set, mem_entry,
  get, set,
}

module _ (r : Redis) (dumps : Value → String) (loads : String → Option Value) where
  -- A value that Redis refuses is not lost: when Redis fails a store, a lookup of the key during the
  -- back-off and within the time to live returns the value, and leaves Redis alone, for a codec that
  -- reads what it writes.
  get-set_refused :
      (key : String) (value : Value) (ttl now later : ℕ) (s : StateStore) (st : r.St)
      → loads (dumps value) ≡ some value
      → redis_ready now s ≡ true
      → (r.redis_set key (dumps value) ttl st).0 ≡ false
      → later < now + redis_retry_after
      → later ≤ now + ttl
      → let after = set r dumps loads key value ttl now s st in
        ((get r dumps loads key later after.0 after.1).0.0 ≡ some value)
        × ((get r dumps loads key later after.0 after.1).1 ≡ after.1)
  unfolding set get redis_ready mark_redis_down mem_set mem_get mem_entry
  get-set_refused key value ttl now later s st codec ready refused soon alive =
      let is_ready : (s.configured && leb s.redis_retry_at now) ≡ true = ready in
      let down : StateStore = record s {
        mem = insert key (now + ttl, dumps value) s.mem;
        redis_retry_at = now + redis_retry_after;
      } in
      let st1 = (r.redis_set key (dumps value) ttl st).1 in
      let stored : set r dumps loads key value ttl now s st ≡ (down, st1) =
        rw (is_ready, refused) refl in
      let waits : (s.configured && leb (now + redis_retry_after) later) ≡ false =
        ground (arith, soon) in
      let held : lookup key (insert key (now + ttl, dumps value) s.mem)
          ≡ some (now + ttl, dumps value) =
        rw (lookup-insert, eq_refl) refl in
      let in_time : ltb (now + ttl) later ≡ false = ground (arith, alive) in
      rw stored (rw (waits, held) (rw in_time (codec, refl)))
