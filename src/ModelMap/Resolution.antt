-- ===== src/ModelMap/Resolution.antt =====
-- How a request's model is looked up in a parsed table.
use image_adapter.Base.{
  not, ◌&&◌, is_some, Bool-cases, String, ◌≡◌, refl, ◌↔◌, ◌⊎◌, true, false, Option, none, some, [],
  ◌∷◌, arith, Assoc, lookup, All-lookup, Option-cases, inl, inr,
}
use image_adapter.Text.{blank, strip, has_char}
use image_adapter.Errors.{ok}
use image_adapter.ModelMap.{wildcard, parse, resolve}
use image_adapter.ModelMap.Table.{IsEntry, parse-IsTable}

-- A name is rewritten to `v` exactly when it has an entry of its own with the model `v`, or has
-- none (or is blank) and the catch-all has the model `v`; surrounding white space does not count.
resolve-eq-some_iff :
    (m v : String) (table : Assoc String)
    → (resolve (some m) table ≡ some v) ↔ (
        ((blank (strip m) ≡ false) × (lookup (strip m) table ≡ some v))
        ⊎ (((blank (strip m) ≡ true) ⊎ (lookup (strip m) table ≡ none))
            × (lookup wildcard table ≡ some v)))
unfolding resolve lookup
resolve-eq-some_iff m v [] = ground arith
resolve-eq-some_iff m v (entry ∷ table) = unfold resolve in ground arith

resolve-from_entry :
    (model : Option String) (table : Assoc String) (v : String)
    → resolve model table ≡ some v
    → (k : String) × (lookup k table ≡ some v)
unfolding resolve lookup
resolve-from_entry model [] v h = absurd (ground arith)
resolve-from_entry none (entry ∷ table) v h = (wildcard, ground arith)
resolve-from_entry (some m) (entry ∷ table) v h =
    elim (Bool-cases (not (blank (strip m)) && is_some (lookup (strip m) (entry ∷ table)))) [
      | inl exact ↦ (strip m, rw exact at h)
      | inr other ↦ (wildcard, rw other at h)
    ]

resolve-eq-none_of_glob :
    (m : String) (table : Assoc String)
    → ((v : String)
        → lookup (strip m) table ≡ some v
        → (has_char b'*' (strip m) ≡ false) ⊎ (strip m ≡ wildcard))
    → has_char b'*' (strip m) ≡ true
    → resolve (some m) table ≡ resolve none table
unfolding resolve
resolve-eq-none_of_glob m [] keys glob = refl
resolve-eq-none_of_glob m (entry ∷ table) keys glob =
    elim (Option-cases (lookup (strip m) (entry ∷ table))) [
      | inl missing ↦ rw missing (ground arith)
      | inr (v, at) ↦ elim (keys v at) [
        | inl plain ↦ absurd (cc)
        | inr star ↦ rw star (ground arith)
      ]
    ]

-- A model that a parsed header maps a request to is never blank.
parse-resolve_filled :
    (raw model : Option String) (table : Assoc String) (v : String)
    → parse raw ≡ ok table
    → resolve model table ≡ some v
    → blank v ≡ false
parse-resolve_filled raw model table v parsed found =
    let t = parse-IsTable raw table parsed in
    let (k, at) = resolve-from_entry model table v found in
    (All-lookup IsEntry k v table t.entries at).1

-- Under a parsed header a name with a `*` inside is answered like a request that names no model:
-- only the catch-all can match it.
parse-resolve_glob :
    (raw : Option String) (model : String) (table : Assoc String)
    → parse raw ≡ ok table
    → has_char b'*' (strip model) ≡ true
    → resolve (some model) table ≡ resolve none table
parse-resolve_glob raw model table parsed glob =
    resolve-eq-none_of_glob model table
      (λ v at.
        (All-lookup IsEntry (strip model) v table (parse-IsTable raw table parsed).entries at).2)
      glob
