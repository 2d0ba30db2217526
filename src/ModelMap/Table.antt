-- ===== src/ModelMap/Table.antt =====
-- What a parsed `X-Model-Map` table is: keys that differ, no blank key or model, and no `*` in a
-- key but the catch-all itself.
use image_adapter.Base.{
  String, ◌≡◌, refl, ◌⊎◌, inl, inr, Bool, true, false, Option, none, some, List, [], ◌∷◌, arith,
  eq_iff, All, All-append, Assoc, insert, lookup, keys, distinct, insert_fresh,
  keys-insert-distinct, Bool-cases,
}
use image_adapter.Text.{blank, split, strip, has_char}
use image_adapter.Errors.{ok, >>=-eq-ok}
use image_adapter.ModelMap.{wildcard, add_pair, add_token, parse_tokens, parse}

abbrev pub IsEntry : String × String → Type 0
IsEntry (name, value) =
    (blank name ≡ false)
    × (blank value ≡ false)
    × ((has_char b'*' name ≡ false) ⊎ (name ≡ wildcard))

pub record IsTable (table : Assoc String) : Type 0 where
  pub entries : All IsEntry table
  pub different : distinct (keys table) ≡ true

IsTable-empty : IsTable []
unfolding keys
IsTable-empty = record { entries = tt; different = refl }

IsTable-insert :
    (name value : String) (table : Assoc String)
    → IsEntry (name, value)
    → lookup name table ≡ none
    → IsTable table
    → IsTable (insert name value table)
IsTable-insert name value table e fresh t = record {
  entries =
      rw (insert_fresh name value table fresh)
        (All-append IsEntry table ((name, value) ∷ []) t.entries (e, tt));
  different = keys-insert-distinct name value table t.different;
}

add_pair-eq-ok :
    (name value : String) (sep : Bool) (table next : Assoc String)
    → add_pair name sep value table ≡ ok next
    → IsEntry (name, value) × (lookup name table ≡ none) × (next ≡ insert name value table)
unfolding add_pair
add_pair-eq-ok name value sep table next h =
    (ground (arith, eq_iff name wildcard), ground arith, ground arith)

add_pair-IsTable :
    (name value : String) (sep : Bool) (table next : Assoc String)
    → IsTable table
    → add_pair name sep value table ≡ ok next
    → IsTable next
add_pair-IsTable name value sep table next t h =
    let (entry, fresh, same) = add_pair-eq-ok name value sep table next h in
    rw same (IsTable-insert name value table entry fresh t)

add_token-IsTable :
    (token : String) (table next : Assoc String)
    → IsTable table
    → add_token token table ≡ ok next
    → IsTable next
unfolding add_token
add_token-IsTable token table next t h = elim (Bool-cases (blank token)) [
  | inl empty ↦ let same : table ≡ next = ground arith in rw (← same) t
  | inr pair ↦ add_pair-IsTable _ _ _ table next t (rw pair at h)
]

parse_tokens-IsTable :
    (tokens : List String) (table next : Assoc String)
    → IsTable table
    → parse_tokens tokens table ≡ ok next
    → IsTable next
unfolding parse_tokens
parse_tokens-IsTable [] table next t h = let same : table ≡ next = ground arith in rw (← same) t
parse_tokens-IsTable (token ∷ rest) table next t h =
    let (more, added, parsed) = >>=-eq-ok (add_token (strip token) table) (parse_tokens rest) h in
    parse_tokens-IsTable rest more next (add_token-IsTable (strip token) table more t added) parsed

-- Whatever the header's value, a table that `parse` returns has no blank key or model, no key with
-- a `*` in it but the catch-all, and no key twice.
pub parse-IsTable :
    (raw : Option String) (table : Assoc String) → parse raw ≡ ok table → IsTable table
unfolding parse
parse-IsTable none table h = let same : [] ≡ table = ground arith in rw (← same) IsTable-empty
parse-IsTable (some raw) table h = elim (Bool-cases (blank (strip raw))) [
  | inl empty ↦ let same : [] ≡ table = ground arith in rw (← same) IsTable-empty
  | inr given ↦ parse_tokens-IsTable (split b',' raw) [] table IsTable-empty (rw given at h)
]
