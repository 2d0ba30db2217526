-- ===== src/TtlCache/Reading.antt =====
-- What a lookup returns after a store.
use image_adapter.Base.{
  ℕ, suc, ◌+◌, ◌-◌, ◌≤◌, ◌≡◌, refl, String, false, ◌||◌, some, [], ◌∷◌, ◌++◌, ltb, length, lookup,
  remove, keys, elem, arith, Bool-cases, inl, inr, eq_refl,
}
use image_adapter.Value.{Bytes}
use image_adapter.TtlCache.{Entries, TtlCache, without_old, answer, get, evict, set}
use image_adapter.TtlCache.Bounded.{
  IsBounded, total, total-append, total-remove, elem-remove, without_old-size_of,
}

lookup-append_fresh :
    (key : String) (d : Entries) (e : ℕ × Bytes)
    → elem key (keys d) ≡ false
    → lookup key (d ++ (key, e) ∷ []) ≡ some e
unfolding lookup keys
lookup-append_fresh key [] e h = rw (eq_refl key) refl
lookup-append_fresh key ((other, x) ∷ d) e h = ground (arith, lookup-append_fresh key d e)

-- The loop never evicts the entry that was just added.
evict-keeps_last :
    (max_entries max_bytes bytes : ℕ) (key : String) (expires : ℕ) (value : Bytes) (d : Entries)
    → elem key (keys d) ≡ false
    → bytes ≡ total (d ++ (key, (expires, value)) ∷ [])
    → 1 ≤ max_entries
    → length value ≤ max_bytes
    → lookup key (evict max_entries max_bytes (d ++ (key, (expires, value)) ∷ []) bytes).0
      ≡ some (expires, value)
unfolding evict total keys lookup
evict-keeps_last max_entries max_bytes bytes key expires value [] h e few small =
    ground (arith, eq_refl key)
evict-keeps_last max_entries max_bytes bytes key expires value ((other, (at, x)) ∷ d) h e few
      small =
    let all_of = d ++ (key, (expires, value)) ∷ [] in
    let ih =
      evict-keeps_last max_entries max_bytes (bytes - length x) key expires value d
        (ground (arith, h)) (omega (arith, e)) few small in
    elim (Bool-cases (ltb max_entries (suc (length all_of)) || ltb max_bytes bytes)) [
      | inl over ↦ rw over ih
      | inr fits ↦ rw fits (lookup-append_fresh key ((other, (at, x)) ∷ d) (expires, value) h)
    ]

-- In a bounded cache with room for an entry, a value that fits is found until it expires: right after
-- it is stored, a lookup at any time up to its expiry returns it, whatever was evicted for it.
pub get-set :
    (key : String) (value : Bytes) (ex now later : ℕ) (c : TtlCache)
    → IsBounded c
    → 1 ≤ c.max_entries
    → length value ≤ c.max_bytes
    → later ≤ now + ex
    → (get key later (set key value ex now c)).0 ≡ some value
unfolding get set answer total
get-set key value ex now later c b few small fresh =
    let others = remove key c.entries in
    let bytes = without_old (lookup key c.entries) c.bytes in
    let gone : elem key (keys others) ≡ false =
      ground (arith, elem-remove key key c.entries, eq_refl key) in
    let summed : bytes + length value ≡ total (others ++ (key, (now + ex, value)) ∷ []) = omega (
      arith,
      without_old-size_of (lookup key c.entries) c.bytes,
      b.counted,
      total-remove key c.entries b.different,
      total-append others ((key, (now + ex, value)) ∷ []),
    ) in
    let found =
      evict-keeps_last c.max_entries c.max_bytes (bytes + length value) key (now + ex) value others
        gone summed few small in
    let fits : ltb c.max_bytes (length value) ≡ false = ground (arith, small) in
    let in_time : ltb (now + ex) later ≡ false = ground (arith, fresh) in
    rw (fits, found, in_time) refl
