-- ===== src/TtlCache.antt =====
-- adapter/context.py: TTLCache, the bounded in-process byte cache. `now` is the value of
-- `time.monotonic()` at the call; the lock makes each operation one step.
pub mod Bounded
pub mod Reading
use image_adapter.Base.{
  ℕ, suc, ◌+◌, ◌-◌, String, Bool, ◌||◌, Option, none, some, List, [], ◌∷◌, ◌++◌, ltb, length, Assoc,
  lookup, remove, if◌then◌else◌,
}
use image_adapter.Value.{Bytes}

-- an entry: the time it expires, and its bytes
abbrev pub Entries : Type 0
Entries = Assoc (ℕ × Bytes)

pub record TtlCache : Type 0 where
  pub max_entries : ℕ
  pub max_bytes : ℕ
  pub entries : Entries
  pub bytes : ℕ

-- `self._bytes -= len(old[1])`, if there is an old entry
unfoldable pub without_old : Option (ℕ × Bytes) → ℕ → ℕ
without_old none bytes = bytes
without_old (some (expires, old)) bytes = bytes - length old

-- the answer of `get` for the entry under the key
unfoldable pub answer : String → ℕ → Option (ℕ × Bytes) → TtlCache → Option Bytes × TtlCache
unfolding remove
answer key now none c = (none, c)
answer key now (some (expires, value)) c =
    if ltb expires now
    then (none, record c { entries = remove key c.entries; bytes = c.bytes - length value })
    else (some value, record c { entries = remove key c.entries ++ (key, (expires, value)) ∷ [] })

unfoldable pub get : String → ℕ → TtlCache → Option Bytes × TtlCache
unfolding answer lookup
get key now c = answer key now (lookup key c.entries) c

-- the loop of `set`: the oldest entries go until both bounds hold
unfoldable pub evict : ℕ → ℕ → Entries → ℕ → Entries × ℕ
evict max_entries max_bytes [] bytes = ([], bytes)
evict max_entries max_bytes ((key, (expires, value)) ∷ rest) bytes =
    let later = evict max_entries max_bytes rest (bytes - length value) in
    if ltb max_entries (suc (length rest)) || ltb max_bytes bytes
    then later
    else ((key, (expires, value)) ∷ rest, bytes)

unfoldable pub set : String → Bytes → ℕ → ℕ → TtlCache → TtlCache
unfolding without_old evict lookup remove
set key value ex now c =
    let others = remove key c.entries in
    let bytes = without_old (lookup key c.entries) c.bytes in
    let kept =
      evict c.max_entries c.max_bytes (others ++ (key, (now + ex, value)) ∷ [])
        (bytes + length value) in
    if ltb c.max_bytes (length value)
    then record c { entries = others; bytes = bytes }
    else record c { entries = kept.0; bytes = kept.1 }
