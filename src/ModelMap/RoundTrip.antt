-- ===== src/ModelMap/RoundTrip.antt =====
-- A table written as an `X-Model-Map` value, and read back.
use Prim.Native.String.{[], ◌∷◌}
use mathlib.Core.List.{append-nil, append_assoc}
use image_adapter.Base.{
  lookup-insert, ap, String, ◌≡◌, refl, ◌⊎◌, true, false, none, some, [], ◌∷◌, ◌++◌, arith, eq_iff,
  All, Assoc, insert, lookup, keys, distinct, elem, insert_fresh, map,
}
use image_adapter.Text.{append, blank, strip, split, has_char}
use image_adapter.Text.Laws.{
  IsTrimmed, Lacks, strip_filled_of_head, strip_of_IsTrimmed, append-IsTrimmed, partition-append,
  split-append, split_of_Lacks, Lacks-append,
}
use image_adapter.Errors.{ok}
use image_adapter.ModelMap.{wildcard, add_token, parse_tokens, parse}

abbrev pub write_pair : String × String → String
write_pair (name, value) = append name (append "=" value)

-- `k=v,k=v`
abbrev pub write : Assoc String → String
write [] = ""
write (entry ∷ []) = write_pair entry
write (entry ∷ next ∷ rest) = append (write_pair entry) (append "," (write (next ∷ rest)))

-- An entry that the format can carry: trimmed, no `,`, no `=` in the key, and `*` only as the
-- catch-all.
pub record IsWritable (entry : String × String) : Type 0 where
  pub name : IsTrimmed entry.0
  pub value : IsTrimmed entry.1
  pub name_eq : Lacks b'=' entry.0
  pub name_comma : Lacks b',' entry.0
  pub value_comma : Lacks b',' entry.1
  pub star : (Lacks b'*' entry.0) ⊎ (entry.0 ≡ wildcard)

write_pair-IsTrimmed : (entry : String × String) → IsWritable entry → IsTrimmed (write_pair entry)
write_pair-IsTrimmed (name, value) w = append-IsTrimmed name value "=" w.name w.value

write_pair-Lacks : (entry : String × String) → IsWritable entry → Lacks b',' (write_pair entry)
unfolding has_char
write_pair-Lacks (name, value) w =
    Lacks-append b',' name (append "=" value) w.name_comma w.value_comma

add_token-write_pair :
    (name value : String) (table : Assoc String)
    → IsWritable (name, value)
    → lookup name table ≡ none
    → add_token (strip (write_pair (name, value))) table ≡ ok (insert name value table)
unfolding add_token
add_token-write_pair name value table w fresh =
    rw
      (
        strip_of_IsTrimmed (write_pair (name, value)) (write_pair-IsTrimmed (name, value) w),
        partition-append name value "=" w.name_eq,
        (write_pair-IsTrimmed (name, value) w).filled,
        strip_of_IsTrimmed name w.name,
        strip_of_IsTrimmed value w.value,
        w.name.filled,
        w.value.filled,
        fresh,
      )
      (ground (arith, eq_iff name wildcard))

split-write :
    (entry : String × String) (rest : Assoc String)
    → All IsWritable (entry ∷ rest)
    → split b',' (write (entry ∷ rest)) ≡ map write_pair (entry ∷ rest)
split-write entry [] (w, tt) = split_of_Lacks b',' (write_pair entry) (write_pair-Lacks entry w)
split-write entry (next ∷ rest) (w, ws) = rw (
  split-append (write_pair entry) (write (next ∷ rest)) "," (write_pair-Lacks entry w),
  split-write next rest ws,
)

abbrev Unseen : Assoc String → Assoc String → Type 0
Unseen seen rest = All (λ entry. lookup entry.0 seen ≡ none) rest

Unseen-insert :
    (name value : String) (seen rest : Assoc String)
    → elem name (keys rest) ≡ false
    → Unseen seen rest
    → Unseen (insert name value seen) rest
unfolding keys
Unseen-insert name value seen [] h u = tt
Unseen-insert name value seen ((k, v) ∷ rest) h (u, us) = (
  rw lookup-insert (ground (arith, eq_iff k name, eq_iff name k)),
  Unseen-insert name value seen rest (ground arith) us,
)

Unseen-empty : (rest : Assoc String) → Unseen [] rest
unfolding lookup
Unseen-empty [] = tt
Unseen-empty (entry ∷ rest) = (refl, Unseen-empty rest)

parse_tokens-write :
    (seen rest : Assoc String)
    → distinct (keys rest) ≡ true
    → Unseen seen rest
    → All IsWritable rest
    → parse_tokens (map write_pair rest) seen ≡ ok (seen ++ rest)
unfolding parse_tokens keys
parse_tokens-write seen [] d u w = rw append-nil
parse_tokens-write seen ((name, value) ∷ rest) d (u, us) (w, ws) =
    rw
      (
        add_token-write_pair name value seen w u,
        parse_tokens-write (insert name value seen) rest (ground arith)
            (Unseen-insert name value seen rest (ground arith) us) ws,
        insert_fresh name value seen u,
      )
      (ap ok (append_assoc seen ((name, value) ∷ []) rest))

write_filled :
    (entry : String × String) (rest : Assoc String)
    → IsWritable entry
    → blank (strip (write (entry ∷ rest))) ≡ false
write_filled entry [] w =
    rw (strip_of_IsTrimmed (write_pair entry) (write_pair-IsTrimmed entry w))
      (write_pair-IsTrimmed entry w).filled
write_filled entry (next ∷ rest) w =
    strip_filled_of_head (write_pair entry) (append "," (write (next ∷ rest)))
      (write_pair-IsTrimmed entry w)

-- A non-empty table whose entries the format can carry, and whose keys differ, is read back as it
-- was written.
pub parse-write :
    (entry : String × String) (rest : Assoc String)
    → All IsWritable (entry ∷ rest)
    → distinct (keys (entry ∷ rest)) ≡ true
    → parse (some (write (entry ∷ rest))) ≡ ok (entry ∷ rest)
unfolding parse
parse-write entry rest w d =
    rw (write_filled entry rest w.0, split-write entry rest w)
      (parse_tokens-write [] (entry ∷ rest) d (Unseen-empty (entry ∷ rest)) w)
