-- ===== src/Middleware/RateLimit/Counting.antt =====
-- What one request does to the table of counters.
use image_adapter.Base.{
  ℕ, ◌+◌, ◌≤◌, ◌≡◌, refl, inl, inr, String, true, false, List, [], ◌∷◌, ◌++◌, length, length-append,
  ltb, ◌==◌, eq_iff, lookup, insert, elem, is_some, lookup-insert, Bool-cases, arith, if◌then◌else◌,
}
use image_adapter.Middleware.RateLimit.{Counters, most_keys, bucket, count_locally}

-- the keys of a table
abbrev pub keys : Counters → List String
keys [] = []
keys ((key, times) ∷ c) = key ∷ keys c

pub elem-keys : (key : String) (c : Counters) → elem key (keys c) ≡ is_some (lookup key c)
unfolding lookup
elem-keys key [] = refl
elem-keys key ((other, times) ∷ c) =
    ground (arith, elem-keys key c, eq_iff other key, eq_iff key other)

-- a table grows by an entry for a key that it does not have
pub length-insert :
    (key : String) (times : List ℕ) (c : Counters)
    → length (insert key times c) ≡ (if is_some (lookup key c) then length c else length c + 1)
unfolding insert lookup
length-insert key times [] = refl
length-insert key times ((other, old) ∷ c) = ground (arith, length-insert key times c)

pub is_some-insert :
    (key other : String) (times : List ℕ) (c : Counters)
    → is_some (lookup key (insert other times c))
      ≡ (if other == key then true else is_some (lookup key c))
is_some-insert key other times c =
    rw (lookup-insert other key times c)
      elim (Bool-cases (other == key)) [ inl same ↦ rw same refl | inr differs ↦ rw differs refl ]

pub bucket-insert :
    (key other : String) (now : ℕ) (c : Counters)
    → length (bucket key (insert other (bucket other c ++ now ∷ []) c))
      ≡ (if other == key then length (bucket key c) + 1 else length (bucket key c))
bucket-insert key other now c =
    let times = bucket other c ++ now ∷ [] in
    rw (lookup-insert other key times c) elim (Bool-cases (other == key)) [
      | inl same ↦
          let eq : other ≡ key = (eq_iff other key).0 same in
          rw (same, eq) (length-append (bucket key c) (now ∷ []))
      | inr differs ↦ rw differs refl
    ]

-- while there is room for the key, the bucket of the request grows by one and no other changes
pub bucket-count_locally :
    (other : String) (now : ℕ) (c : Counters)
    → (if is_some (lookup other c) then length c else length c + 1) ≤ most_keys
    → (count_locally other now c).1 ≡ insert other (bucket other c ++ now ∷ []) c
unfolding count_locally
bucket-count_locally other now c room =
    let times = bucket other c ++ now ∷ [] in
    let grown = length-insert other times c in
    let fits : ltb most_keys (length (insert other times c)) ≡ false =
      ground (arith, grown, room) in
    rw fits refl

pub counted_as :
    (other : String) (now : ℕ) (c : Counters)
    → (count_locally other now c).0 ≡ length (bucket other c) + 1
unfolding count_locally
counted_as other now c = length-append (bucket other c) (now ∷ [])
