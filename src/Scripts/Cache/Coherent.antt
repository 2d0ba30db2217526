-- ===== src/Scripts/Cache/Coherent.antt =====
-- The cache is transparent, bounded, and forgets the least recently used first.
use image_adapter.Base.{
  ℕ, ◌+◌, ◌≤◌, String, Option, none, some, List, [], ◌∷◌, ltb, length, length-append, map, All,
  All-append, Assoc, lookup, insert, remove, ◌==◌, Bool-cases, Option-cases, inl, inr, ◌≡◌, refl,
  sym, ap, ◌∙◌, arith, eq_iff,
}
use mathlib.Core.Path.{subst}
use image_adapter.Errors.{Result, ok, err, crash}
use image_adapter.Scripts.Source.{ScriptSource}
use image_adapter.Scripts.Cache.{
  move_to_end, evict, cache_get, cache_put, store_compiled, load_script, load_all,
}

some-injective : {A : Type 0} {a b : A} → Path (Option A) (some a) (some b) → a ≡ b
some-injective h = cc

module _ {A : Type 0} (P : String × A → Type 0) where
  All-remove : (key : String) (entries : Assoc A) → All P entries → All P (remove key entries)
  unfolding remove
  All-remove key [] h = tt
  All-remove key ((k, a) ∷ entries) (p, h) = elim (Bool-cases (k == key)) [
    | inl same ↦ rw same (All-remove key entries h)
    | inr other ↦ rw other (p, All-remove key entries h)
  ]

  All-insert :
      (key : String) (a : A) (entries : Assoc A)
      → P (key, a)
      → All P entries
      → All P (insert key a entries)
  unfolding insert
  All-insert key a [] here h = (here, tt)
  All-insert key a ((k, b) ∷ entries) here (p, h) = elim (Bool-cases (k == key)) [
    | inl same ↦ rw same (subst (λ x. P (x, a)) (sym ((eq_iff k key).0 same)) here, h)
    | inr other ↦ rw other (p, All-insert key a entries here h)
  ]

  All-evict : (n : ℕ) (entries : Assoc A) → All P entries → All P (evict n entries)
  unfolding evict
  All-evict n [] h = tt
  All-evict n (entry ∷ entries) (p, h) = elim (Bool-cases (ltb n (length (entry ∷ entries)))) [
    | inl full ↦ rw full (All-evict n entries h)
    | inr fits ↦ rw fits (p, h)
  ]

  All-lookup :
      (key : String) (a : A) (entries : Assoc A)
      → All P entries
      → lookup key entries ≡ some a
      → P (key, a)
  unfolding lookup
  All-lookup key a [] h e = absurd (cc)
  All-lookup key a ((k, b) ∷ entries) (p, h) e = elim (Bool-cases (k == key)) [
    | inl same ↦ subst P (λ i. ((eq_iff k key).0 same i, some-injective (rw same at e) i)) p
    | inr other ↦ All-lookup key a entries h (rw other at e)
  ]

module _ {A : Type 0} where
  evict_bound : (n : ℕ) (entries : Assoc A) → length (evict n entries) ≤ n
  unfolding evict
  evict_bound n [] = omega arith
  evict_bound n (entry ∷ entries) = ground (arith, evict_bound n entries)

  length-remove_le :
      (key : String) (entries : Assoc A) → length (remove key entries) ≤ length entries
  unfolding remove
  length-remove_le key [] = omega arith
  length-remove_le key ((k, a) ∷ entries) = ground (arith, length-remove_le key entries)

  -- a key that is there makes room for itself
  length-remove_lt :
      (key : String) (a : A) (entries : Assoc A)
      → lookup key entries ≡ some a
      → 1 + length (remove key entries) ≤ length entries
  unfolding remove lookup
  length-remove_lt key a [] h = absurd (cc)
  length-remove_lt key a ((k, b) ∷ entries) h =
      ground (arith, h, length-remove_le key entries, length-remove_lt key a entries)

-- `digest` tells texts apart
module _ {A : Type 0} (digest : String → String)
    (apart : (s t : String) → digest s ≡ digest t → s ≡ t) (compile : String → Result A)
    (max_size : ℕ) where
  -- An entry is what its text compiles to.
  abbrev pub IsCompiled : String × A → Type 0
  IsCompiled (key, a) = (text : String) × (digest text ≡ key) × (compile text ≡ ok a)

  pub record IsCoherent (entries : Assoc A) : Type 0 where
    pub compiled : All IsCompiled entries
    pub bounded : length entries ≤ max_size

  cache_put-IsCoherent :
      (key : String) (a : A) (entries : Assoc A)
      → IsCompiled (key, a)
      → IsCoherent entries
      → IsCoherent (cache_put max_size key a entries)
  unfolding cache_put
  cache_put-IsCoherent key a entries here c = record {
    compiled = All-evict IsCompiled max_size (move_to_end key a (insert key a entries)) (
        All-append IsCompiled (remove key (insert key a entries)) ((key, a) ∷ [])
          (All-remove IsCompiled key (insert key a entries)
            (All-insert IsCompiled key a entries here c.compiled))
          (here, tt));
    bounded = evict_bound max_size (move_to_end key a (insert key a entries));
  }

  move_to_end-IsCoherent :
      (key : String) (a : A) (entries : Assoc A)
      → lookup key entries ≡ some a
      → IsCoherent entries
      → IsCoherent (move_to_end key a entries)
  move_to_end-IsCoherent key a entries there c = record {
    compiled =
        All-append IsCompiled (remove key entries) ((key, a) ∷ [])
          (All-remove IsCompiled key entries c.compiled)
          (All-lookup IsCompiled key a entries c.compiled there, tt);
    bounded = omega (
      arith,
      c.bounded,
      length-append (remove key entries) ((key, a) ∷ []),
      length-remove_lt key a entries there,
    );
  }

  store_compiled-IsCoherent :
      (text : String) (result : Result A) (entries : Assoc A)
      → compile text ≡ result
      → IsCoherent entries
      → ((store_compiled max_size (digest text) result entries).0 ≡ compile text)
        × IsCoherent (store_compiled max_size (digest text) result entries).1
  store_compiled-IsCoherent text (ok a) entries e c =
      (sym e, cache_put-IsCoherent (digest text) a entries (text, refl, e) c)
  store_compiled-IsCoherent text (err raised) entries e c = (sym e, c)
  store_compiled-IsCoherent text crash entries e c = (sym e, c)

  load_miss :
      (source : ScriptSource) (entries : Assoc A)
      → lookup source.sha256 entries ≡ none
      → load_script compile max_size source entries
        ≡ store_compiled max_size source.sha256 (compile source.text) entries
  unfolding load_script cache_get
  load_miss source entries miss = ground (arith, miss)

  load_hit :
      (source : ScriptSource) (entries : Assoc A) (a : A)
      → lookup source.sha256 entries ≡ some a
      → load_script compile max_size source entries ≡ (ok a, move_to_end source.sha256 a entries)
  unfolding load_script cache_get
  load_hit source entries a hit = ground (arith, hit)

  -- Loading a source whose digest is that of its text gives what compiling the text would give, error or
  -- not, whether or not the cache has it, and leaves the cache coherent: at most `max_size` entries, each
  -- of them what a text with that digest compiles to.
  pub load_script-IsCoherent :
      (source : ScriptSource) (entries : Assoc A)
      → source.sha256 ≡ digest source.text
      → IsCoherent entries
      → ((load_script compile max_size source entries).0 ≡ compile source.text)
        × IsCoherent (load_script compile max_size source entries).1
  load_script-IsCoherent source entries hashed c =
      elim (Option-cases (lookup source.sha256 entries)) [
        | inl miss ↦
            subst (λ r. (r.0 ≡ compile source.text) × IsCoherent r.1)
              (sym (load_miss source entries miss))
              (subst
                (λ key.
                  let r = store_compiled max_size key (compile source.text) entries in
                  (r.0 ≡ compile source.text) × IsCoherent r.1)
                (sym hashed)
                (store_compiled-IsCoherent source.text (compile source.text) entries refl c))
        | inr (a, hit) ↦
            let (text, hash, compiles) =
              All-lookup IsCompiled source.sha256 a entries c.compiled hit in
            let same : text ≡ source.text = apart text source.text (hash ∙ hashed) in
            subst (λ r. (r.0 ≡ compile source.text) × IsCoherent r.1)
              (sym (load_hit source entries a hit))
              (sym compiles ∙ ap compile same, move_to_end-IsCoherent source.sha256 a entries hit c)
      ]

  abbrev pub HashedAll : List ScriptSource → Type 0
  HashedAll = All (λ source. source.sha256 ≡ digest source.text)

  load_all-IsCoherent :
      (sources : List ScriptSource) (entries : Assoc A)
      → HashedAll sources
      → IsCoherent entries
      → ((load_all compile max_size sources entries).0
          ≡ map (λ source. compile source.text) sources)
        × IsCoherent (load_all compile max_size sources entries).1
  unfolding load_all
  load_all-IsCoherent [] entries hashed c = (refl, c)
  load_all-IsCoherent (source ∷ sources) entries (hash, hashed) c =
      let (result, next) = load_script-IsCoherent source entries hash c in
      let (results, last) =
        load_all-IsCoherent sources (load_script compile max_size source entries).1 hashed next in
      (λ i. result i ∷ results i, last)

  -- Any sequence of loads that starts from an empty cache gives what compiling each text anew gives, and
  -- leaves at most `max_size` entries.
  pub load_all-compile :
      (sources : List ScriptSource)
      → HashedAll sources
      → ((load_all compile max_size sources []).0 ≡ map (λ source. compile source.text) sources)
        × (length (load_all compile max_size sources []).1 ≤ max_size)
  load_all-compile sources hashed =
      let (results, last) =
        load_all-IsCoherent sources [] hashed (record { compiled = tt; bounded = omega arith }) in
      (results, last.bounded)
