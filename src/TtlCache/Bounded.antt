-- ===== src/TtlCache/Bounded.antt =====
-- The bounds of the byte cache.
use image_adapter.Base.{
  ℕ, suc, ◌+◌, ◌-◌, ◌≤◌, ◌≡◌, refl, ap, ◌∙◌, String, true, false, not, ◌&&◌, ◌||◌, Option, none,
  some, [], ◌∷◌, ◌++◌, ltb, length, length-append, lookup, remove, keys, elem, distinct, arith,
  Bool-cases, inl, inr, ◌==◌, eq_iff, eq_refl,
}
use image_adapter.Value.{Bytes}
use image_adapter.TtlCache.{Entries, TtlCache, without_old, answer, get, evict, set}

-- the bytes of all entries
unfoldable pub total : Entries → ℕ
total [] = 0
total ((key, (expires, value)) ∷ rest) = length value + total rest

-- The count of bytes is right, no key occurs twice, and both bounds hold.
pub record IsBounded (c : TtlCache) : Type 0 where
  pub counted : c.bytes ≡ total c.entries
  pub different : distinct (keys c.entries) ≡ true
  pub few : length c.entries ≤ c.max_entries
  pub small : total c.entries ≤ c.max_bytes

pub total-append : (d e : Entries) → total (d ++ e) ≡ total d + total e
unfolding total
total-append [] e = omega arith
total-append ((key, (expires, value)) ∷ d) e = omega (arith, total-append d e)

-- the bytes of an entry that may be there
unfoldable pub size_of : Option (ℕ × Bytes) → ℕ
size_of none = 0
size_of (some (expires, value)) = length value

pub remove_absent : (key : String) (d : Entries) → elem key (keys d) ≡ false → remove key d ≡ d
unfolding remove keys
remove_absent key [] h = refl
remove_absent key ((other, e) ∷ d) h = ground (arith, remove_absent key d)

pub elem-remove :
    (k key : String) (d : Entries)
    → elem k (keys (remove key d)) ≡ (elem k (keys d) && not (key == k))
unfolding remove keys
elem-remove k key [] = refl
elem-remove k key ((other, e) ∷ d) =
    ground (arith, elem-remove k key d, eq_iff other key, eq_iff other k, eq_iff key k)

pub distinct-remove :
    (key : String) (d : Entries) → distinct (keys d) ≡ true → distinct (keys (remove key d)) ≡ true
unfolding remove keys
distinct-remove key [] h = refl
distinct-remove key ((other, e) ∷ d) h =
    ground (arith, distinct-remove key d, elem-remove other key d)

pub total-remove :
    (key : String) (d : Entries)
    → distinct (keys d) ≡ true
    → total d ≡ total (remove key d) + size_of (lookup key d)
unfolding remove keys lookup total size_of
total-remove key [] h = omega arith
total-remove key ((other, (expires, value)) ∷ d) h =
    ground (arith, total-remove key d, remove_absent key d, eq_iff other key)

pub length-remove : (key : String) (d : Entries) → length (remove key d) ≤ length d
unfolding remove
length-remove key [] = omega arith
length-remove key ((other, e) ∷ d) = ground (arith, length-remove key d)

length-remove_there :
    (key : String) (d : Entries) (e : ℕ × Bytes)
    → lookup key d ≡ some e
    → length (remove key d) + 1 ≤ length d
unfolding remove lookup
length-remove_there key [] e h = absurd (cc)
length-remove_there key ((other, x) ∷ d) e h =
    ground (arith, length-remove_there key d e, length-remove key d)

-- What the loop leaves is counted and within both bounds.
evict_lem :
    (max_entries max_bytes bytes : ℕ) (d : Entries)
    → bytes ≡ total d
    → distinct (keys d) ≡ true
    → let kept = evict max_entries max_bytes d bytes in
      (kept.1 ≡ total kept.0)
      × (distinct (keys kept.0) ≡ true)
      × (length kept.0 ≤ max_entries)
      × (total kept.0 ≤ max_bytes)
unfolding evict total keys
evict_lem max_entries max_bytes bytes [] e h = (e, h, omega arith, omega arith)
evict_lem max_entries max_bytes bytes ((key, (expires, value)) ∷ d) e h =
    let ih =
      evict_lem max_entries max_bytes (bytes - length value) d (omega (arith, e))
        (ground (arith, h)) in
    elim (Bool-cases (ltb max_entries (suc (length d)) || ltb max_bytes bytes)) [
      | inl over ↦ rw over ih
      | inr fits ↦ rw fits (e, h, ground (arith, fits), ground (arith, fits, e))
    ]

elem-keys-append :
    (k : String) (d : Entries) (key : String) (e : ℕ × Bytes)
    → elem k (keys (d ++ (key, e) ∷ [])) ≡ (elem k (keys d) || key == k)
unfolding keys
elem-keys-append k [] key e = ground arith
elem-keys-append k ((other, x) ∷ d) key e = ground (arith, elem-keys-append k d key e)

distinct-append_fresh :
    (d : Entries) (key : String) (e : ℕ × Bytes)
    → distinct (keys d) ≡ true
    → elem key (keys d) ≡ false
    → (distinct (keys (d ++ (key, e) ∷ [])) ≡ true)
unfolding keys
distinct-append_fresh [] key e h k = refl
distinct-append_fresh ((other, x) ∷ d) key e h k = ground (
  arith,
  distinct-append_fresh d key e,
  elem-keys-append other d key e,
  eq_iff other key,
  eq_iff key other,
)

pub without_old-size_of : (old : Option (ℕ × Bytes)) (n : ℕ) → without_old old n ≡ n - size_of old
unfolding without_old size_of
without_old-size_of none n = omega arith
without_old-size_of (some (expires, value)) n = refl

-- Whatever is stored, `set` keeps a bounded cache bounded: the bytes are counted right, no key occurs
-- twice, and neither the entries nor their bytes pass their limits.
pub set-IsBounded :
    (key : String) (value : Bytes) (ex now : ℕ) (c : TtlCache)
    → IsBounded c
    → IsBounded (set key value ex now c)
unfolding set total
set-IsBounded key value ex now c b =
    let others = remove key c.entries in
    let bytes = without_old (lookup key c.entries) c.bytes in
    let counted : bytes ≡ total others = omega (
      arith,
      without_old-size_of (lookup key c.entries) c.bytes,
      b.counted,
      total-remove key c.entries b.different,
    ) in
    let apart = distinct-remove key c.entries b.different in
    let gone : elem key (keys others) ≡ false =
      ground (arith, elem-remove key key c.entries, eq_refl key) in
    let all_of = others ++ (key, (now + ex, value)) ∷ [] in
    let summed : bytes + length value ≡ total all_of =
      omega (arith, counted, total-append others ((key, (now + ex, value)) ∷ [])) in
    let (p, q, r, s) =
      evict_lem c.max_entries c.max_bytes (bytes + length value) all_of summed
        (distinct-append_fresh others key (now + ex, value) apart gone) in
    elim (Bool-cases (ltb c.max_bytes (length value))) [
      | inl big ↦ rw big (record {
        counted = counted;
        different = apart;
        few = omega (arith, b.few, length-remove key c.entries);
        small = omega (arith, b.small, total-remove key c.entries b.different);
      })
      | inr fits ↦ rw fits (record { counted = p; different = q; few = r; small = s })
    ]

answer-IsBounded :
    (key : String) (now : ℕ) (found : Option (ℕ × Bytes)) (c : TtlCache)
    → IsBounded c
    → lookup key c.entries ≡ found
    → IsBounded (answer key now found c).1
unfolding answer total size_of
answer-IsBounded key now none c b e = b
answer-IsBounded key now (some (expires, value)) c b e =
    let others = remove key c.entries in
    let sum : total c.entries ≡ total others + length value =
      total-remove key c.entries b.different ∙ ap (λ x. total others + size_of x) e in
    let apart = distinct-remove key c.entries b.different in
    let gone : elem key (keys others) ≡ false =
      ground (arith, elem-remove key key c.entries, eq_refl key) in
    let fewer = length-remove_there key c.entries (expires, value) e in
    elim (Bool-cases (ltb expires now)) [
      | inl late ↦ rw late (record {
        counted = omega (arith, b.counted, sum);
        different = apart;
        few = omega (arith, b.few, fewer);
        small = omega (arith, b.small, sum);
      })
      | inr fresh ↦ rw fresh (record {
        counted = omega (arith, b.counted, sum, total-append others ((key, (expires, value)) ∷ []));
        different = distinct-append_fresh others key (expires, value) apart gone;
        few = omega (arith, b.few, fewer, length-append others ((key, (expires, value)) ∷ []));
        small = omega (arith, b.small, sum, total-append others ((key, (expires, value)) ∷ []));
      })
    ]

-- A lookup keeps a bounded cache bounded, whether it finds nothing, drops an entry that has expired, or
-- moves one to the end.
get-IsBounded : (key : String) (now : ℕ) (c : TtlCache) → IsBounded c → IsBounded (get key now c).1
unfolding get
get-IsBounded key now c b = answer-IsBounded key now (lookup key c.entries) c b refl
