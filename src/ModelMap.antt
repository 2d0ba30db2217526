-- ===== src/ModelMap.antt =====
-- adapter/modelmap.py: the `X-Model-Map` table of a channel, its parser and its resolution.
pub mod Table
pub mod Resolution
pub mod RoundTrip
use image_adapter.Base.{
  String, Bool, true, false, not, ◌&&◌, ◌||◌, Option, none, some, List, [], ◌∷◌, ◌==◌,
  if◌then◌else◌, is_some, is_empty, Assoc, lookup, insert,
}
use image_adapter.Text.{strip, blank, split, partition, has_char}
use image_adapter.Errors.{Result, ok, err, channel_config_error, ◌>>=◌}

-- The catch-all key.
abbrev pub wildcard : String
wildcard = "*"

abbrev pub header : String
header = "X-Model-Map"

-- the checks on one `key=model` pair, and the entry it adds to the table
unfoldable pub add_pair : String → Bool → String → Assoc String → Result (Assoc String)
add_pair name sep value table =
    if not sep || blank name || blank value
    then err (channel_config_error header)
    else if is_some (lookup name table)
    then err (channel_config_error header)
    else if not (name == wildcard) && has_char b'*' name
    then err (channel_config_error header)
    else ok (insert name value table)

-- one round of the loop, for a token that has been stripped
unfoldable pub add_token : String → Assoc String → Result (Assoc String)
unfolding add_pair
add_token token table =
    let pair = partition b'=' token in
    if blank token then ok table else add_pair (strip pair.head) pair.found (strip pair.tail) table

unfoldable pub parse_tokens : List String → Assoc String → Result (Assoc String)
parse_tokens [] table = ok table
parse_tokens (token ∷ rest) table = do more ← add_token (strip token) table; parse_tokens rest more

-- The header's value is a string or absent, so the refusal of other types does not arise.
unfoldable pub parse : Option String → Result (Assoc String)
unfolding parse_tokens
parse none = ok []
parse (some raw) = if blank (strip raw) then ok [] else parse_tokens (split b',' raw) []

-- `model` is `none` where the body's model is missing or is no string.
unfoldable pub resolve : Option String → Assoc String → Option String
resolve model table =
    let name : String = elim model [ none ↦ "" | some m ↦ strip m ] in
    if is_empty table
    then none
    else if not (blank name) && is_some (lookup name table)
    then lookup name table
    else lookup wildcard table
