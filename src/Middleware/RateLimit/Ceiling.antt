-- ===== src/Middleware/RateLimit/Ceiling.antt =====
-- How many requests get through in one window.
use image_adapter.Base.{
  ℕ, suc, ◌+◌, ◌-◌, ◌≤◌, ◌≡◌, refl, ap, inl, inr, String, true, false, not, ◌&&◌, Option, none,
  List, [], ◌∷◌, ◌++◌, length, ltb, leb, ◌==◌, eq_iff, lookup, insert, elem, is_some, sym, ◌∙◌,
  Bool-cases, Option-cases, arith, if◌then◌else◌,
}
use text.Mathlib.TextPositions.{eq_refl}
use image_adapter.Text.{blank}
use image_adapter.Settings.{Settings}
use image_adapter.Value.{Value}
use image_adapter.StateStore.{Redis}
use image_adapter.Middleware.RateLimit.{
  Scope, Counters, most_keys, bucket, count_locally, key_of, exempt, Limiter, count_shared,
  or_count, rate_limit,
}
use image_adapter.Middleware.RateLimit.Counting.{
  keys, elem-keys, length-insert, is_some-insert, bucket-insert, bucket-count_locally, counted_as,
}

full-clears :
    (key : String) (now : ℕ) (c : Counters)
    → lookup key c ≡ none
    → length c ≡ most_keys
    → (count_locally key now c).1 ≡ []
unfolding count_locally
full-clears key now c fresh full =
    let times = bucket key c ++ now ∷ [] in
    let grown : length (insert key times c) ≡ length c + 1 =
      rw (length-insert key times c, fresh) refl in
    let over : ltb most_keys (length (insert key times c)) ≡ true = ground (arith, grown) in
    rw over refl

-- a request with its times
pub record Arrival : Type 0 where
  pub scope : Scope
  pub now : ℕ
  pub uptime : ℕ

module _ (digest : String → String) (show : ℕ → String) (r : Redis) (dumps : Value → String)
    (loads : String → Option Value) (settings : Settings) where
  -- how many requests under a key are counted and let through
  pub through : String → List Arrival → Limiter r.St → ℕ
  through key [] l = 0
  through key (q ∷ qs) l =
      let (passes, next) = rate_limit digest show r dumps loads settings q.scope q.now q.uptime l in
      let rest = through key qs next in
      if not (exempt digest show settings q.scope)
        && (key_of digest show q.scope q.now == key && passes)
      then suc rest
      else rest

  local-count_shared :
      (key : String) (uptime : ℕ) (l : Limiter r.St)
      → blank settings.redis_url ≡ true
      → count_shared digest show r dumps loads settings key uptime l ≡ (none, l)
  unfolding count_shared
  local-count_shared key uptime l off = elim (Option-cases l.store) [
    | inl missing ↦ rw missing refl
    | inr (store, has) ↦ rw (has, off) refl
  ]

  counted :
      (q : Arrival) (l : Limiter r.St)
      → blank settings.redis_url ≡ true
      → exempt digest show settings q.scope ≡ false
      → rate_limit digest show r dumps loads settings q.scope q.now q.uptime l ≡ (
        leb
            (count_locally (key_of digest show q.scope q.now) q.now l.counters).0
            settings.rate_limit_per_minute,
        record l {
          counters = (count_locally (key_of digest show q.scope q.now) q.now l.counters).1;
        },
      )
  unfolding rate_limit or_count
  counted q l off counts =
      rw (counts, local-count_shared (key_of digest show q.scope q.now) q.uptime l off) refl

  exempted :
      (q : Arrival) (l : Limiter r.St)
      → exempt digest show settings q.scope ≡ true
      → rate_limit digest show r dumps loads settings q.scope q.now q.uptime l ≡ (true, l)
  unfolding rate_limit
  exempted q l free = rw free refl

  -- the table once a request is counted and nothing is cleared
  abbrev counted_once : Arrival → Counters → Counters
  counted_once q c =
      let key = key_of digest show q.scope q.now in insert key (bucket key c ++ q.now ∷ []) c

  -- how many keys a run of requests adds to those that are seen before it
  unfoldable pub new_keys : List String → List Arrival → ℕ
  new_keys seen [] = 0
  new_keys seen (q ∷ qs) =
      let key = key_of digest show q.scope q.now in
      let adds = not (exempt digest show settings q.scope) && not (elem key seen) in
      let rest = new_keys (if adds then key ∷ seen else seen) qs in if adds then suc rest else rest

  -- a request that is counted, and the requests after it
  after_counted :
      (key : String) (q : Arrival) (qs : List Arrival) (l : Limiter r.St)
      → blank settings.redis_url ≡ true
      → exempt digest show settings q.scope ≡ false
      → (if is_some (lookup (key_of digest show q.scope q.now) l.counters)
          then length l.counters
          else length l.counters + 1)
        ≤ most_keys
      → through key qs (record l { counters = counted_once q l.counters })
        ≤ settings.rate_limit_per_minute - length (bucket key (counted_once q l.counters))
      → through key (q ∷ qs) l ≤ settings.rate_limit_per_minute - length (bucket key l.counters)
  unfolding through
  after_counted key q qs l off counts room rest =
      let other = key_of digest show q.scope q.now in
      let kept = bucket-count_locally other q.now l.counters room in
      rw (counted q l off counts, counts, kept)
        (ground (
          arith,
          rest,
          bucket-insert key other q.now l.counters,
          counted_as other q.now l.counters,
          eq_iff other key,
        ))

  -- the keys that are seen are those of the table once a request is counted
  seen_after :
      (q : Arrival) (c : Counters) (seen : List String)
      → ((k : String) → elem k seen ≡ is_some (lookup k c))
      → (k : String)
      → (if elem (key_of digest show q.scope q.now) seen
          then elem k seen
          else elem k (key_of digest show q.scope q.now ∷ seen))
        ≡ is_some (lookup k (counted_once q c))
  seen_after q c seen same k =
      let other = key_of digest show q.scope q.now in
      let inserted = is_some-insert k other (bucket other c ++ q.now ∷ []) c in
      elim (Bool-cases (other == k)) [
        | inl is ↦
            let equal : other ≡ k = (eq_iff other k).0 is in
            ground (arith, inserted, is, ap (λ x. elem x seen) equal, eq_refl k)
        | inr differs ↦ ground (arith, inserted, differs, same k, eq_iff k other, eq_iff other k)
      ]

  through_seen :
      (key : String) (qs : List Arrival) (l : Limiter r.St) (seen : List String)
      → blank settings.redis_url ≡ true
      → ((k : String) → elem k seen ≡ is_some (lookup k l.counters))
      → length l.counters + new_keys seen qs ≤ most_keys
      → through key qs l ≤ settings.rate_limit_per_minute - length (bucket key l.counters)
  unfolding through new_keys
  through_seen key [] l seen off same room = omega arith
  through_seen key (q ∷ qs) l seen off same room =
      let other = key_of digest show q.scope q.now in
      let next : Limiter r.St = record l { counters = counted_once q l.counters } in
      let after = seen_after q l.counters seen same in
      let grown = length-insert other (bucket other l.counters ++ q.now ∷ []) l.counters in
      elim (Bool-cases (exempt digest show settings q.scope)) [
        | inl free ↦
            rw (exempted q l free, free) (through_seen key qs l seen off same (rw free at room))
        | inr counts ↦ elim (Bool-cases (elem other seen)) [
          | inl old ↦
              let there : is_some (lookup other l.counters) ≡ true = sym (same other) ∙ old in
              let fits = rw (counts, old) at room in
              after_counted key q qs l off counts (ground (arith, there, fits)) (
                through_seen key qs next seen off (λ k. rw old at after k)
                  (ground (arith, grown, there, fits)))
          | inr new ↦
              let fresh : is_some (lookup other l.counters) ≡ false = sym (same other) ∙ new in
              let fits = rw (counts, new) at room in
              after_counted key q qs l off counts (ground (arith, fresh, fits)) (
                through_seen key qs next (other ∷ seen) off (λ k. rw new at after k)
                  (ground (arith, grown, fresh, fits)))
        ]
      ]

  -- Without Redis, in any run of requests that are made under at most 1000 keys, those counted before it
  -- included, at most as many requests under one key (one caller in one minute) are let through as the
  -- limit leaves room for beside those counted under that key before. A request that the limit does not
  -- apply to has no key.
  pub through-le :
      (key : String) (qs : List Arrival) (l : Limiter r.St)
      → blank settings.redis_url ≡ true
      → length l.counters + new_keys (keys l.counters) qs ≤ most_keys
      → through key qs l ≤ settings.rate_limit_per_minute - length (bucket key l.counters)
  through-le key qs l off room =
      through_seen key qs l (keys l.counters) off (λ k. elem-keys k l.counters) room

  first_passes :
      (key : String) (now : ℕ)
      → 1 ≤ settings.rate_limit_per_minute
      → leb (count_locally key now []).0 settings.rate_limit_per_minute ≡ true
  unfolding count_locally lookup
  first_passes key now h = ground arith

  -- Without Redis, a request under a new key empties a full table: whatever was counted before, the
  -- next request, under whatever key, is let through, if the limit is not zero.
  pub rate_limit_reset :
      (new next : Arrival) (l : Limiter r.St)
      → blank settings.redis_url ≡ true
      → exempt digest show settings new.scope ≡ false
      → lookup (key_of digest show new.scope new.now) l.counters ≡ none
      → length l.counters ≡ most_keys
      → 1 ≤ settings.rate_limit_per_minute
      → (rate_limit digest show r dumps loads settings next.scope next.now next.uptime
          (rate_limit digest show r dumps loads settings new.scope new.now new.uptime l).1).0
        ≡ true
  rate_limit_reset new next l off counts fresh full some_allowed =
      elim (Bool-cases (exempt digest show settings next.scope)) [
        | inl free ↦ ap (λ p. p.0) (exempted next _ free)
        | inr counts_too ↦
            rw (counted new l off counts, full-clears _ new.now l.counters fresh full)
              (rw (counted next (record l { counters = [] }) off counts_too)
                (first_passes (key_of digest show next.scope next.now) next.now some_allowed))
      ]
