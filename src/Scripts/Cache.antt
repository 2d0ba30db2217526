-- ===== src/Scripts/Cache.antt =====
-- adapter/script_cache.py: ScriptCache, least recently used first. `compile` is scanning, compiling and
-- running a text and reading what it declares; it sees nothing of the source but the text.
pub mod Coherent
use image_adapter.Base.{
  ℕ, String, Bool, true, false, Option, none, some, List, [], ◌∷◌, ◌++◌, ltb, length, Assoc, lookup,
  insert, remove, if◌then◌else◌,
}
use image_adapter.Errors.{Result, ok, err, crash}
use image_adapter.Scripts.Source.{ScriptSource}

module _ {A : Type 0} where
  -- OrderedDict.move_to_end of an entry that is there
  abbrev pub move_to_end : String → A → Assoc A → Assoc A
  move_to_end key a entries = remove key entries ++ (key, a) ∷ []

  -- while len(entries) > max_size: popitem(last=False)
  unfoldable pub evict : ℕ → Assoc A → Assoc A
  evict max_size [] = []
  evict max_size (entry ∷ entries) =
      let rest = evict max_size entries in
      if ltb max_size (length (entry ∷ entries)) then rest else entry ∷ entries

  -- ScriptCache.get
  unfoldable pub cache_get : String → Assoc A → Option A × Assoc A
  unfolding lookup remove
  cache_get key entries = elim (lookup key entries) [
    | none ↦ (none, entries)
    | some a ↦ (some a, move_to_end key a entries)
  ]

  -- ScriptCache.put
  unfoldable pub cache_put : ℕ → String → A → Assoc A → Assoc A
  unfolding remove insert evict lookup
  cache_put max_size key a entries = evict max_size (move_to_end key a (insert key a entries))

  abbrev pub store_compiled : ℕ → String → Result A → Assoc A → Result A × Assoc A
  store_compiled max_size key (ok a) entries = (ok a, cache_put max_size key a entries)
  store_compiled max_size key (err e) entries = (err e, entries)
  store_compiled max_size key crash entries = (crash, entries)

  -- ScriptCache.load
  unfoldable pub load_script : (String → Result A) → ℕ → ScriptSource → Assoc A → Result A × Assoc A
  unfolding cache_get cache_put
  load_script compile max_size source entries =
      let (cached, used) = cache_get source.sha256 entries in
      elim cached [
        | some a ↦ (ok a, used)
        | none ↦ store_compiled max_size source.sha256 (compile source.text) used
      ]

  -- one load after another
  unfoldable pub load_all :
      (String → Result A) → ℕ → List ScriptSource → Assoc A → List (Result A) × Assoc A
  unfolding load_script
  load_all compile max_size [] entries = ([], entries)
  load_all compile max_size (source ∷ sources) entries =
      let (result, next) = load_script compile max_size source entries in
      let (results, last) = load_all compile max_size sources next in (result ∷ results, last)
