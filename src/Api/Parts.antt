-- ===== src/Api/Parts.antt =====
-- adapter/api/frontdoor.py: how a message's content is read. `show` is Python's `str`, which also
-- writes the index of an f-string.
use image_adapter.Base.{
  ℕ, suc, String, Bool, false, none, some, List, [], ◌∷◌, ◌++◌, elem, is_empty, if◌then◌else◌,
}
use image_adapter.Text.{strip, blank, append, join}
use image_adapter.Errors.{Result, ok, err, crash, ◌>>=◌, invalid_request, unsupported}
use image_adapter.Value.{
  Value, null, int, pos, str, list, dict, Items, nil, cons, Fields, get, get_or_null, put,
}
use image_adapter.Transport.{text_of}

abbrev pub instruction_roles : List String
instruction_roles = "system" ∷ "developer" ∷ []

abbrev pub text_part_types : List String
text_part_types = "text" ∷ "input_text" ∷ []

abbrev pub image_part_types : List String
image_part_types = "image_url" ∷ "input_image" ∷ "image" ∷ []

-- `v in names` for a frozenset: a value that cannot be hashed raises a TypeError
abbrev pub is_in : Value → List String → Result Bool
is_in (str s) names = ok (elem s names)
is_in (list vs) names = crash
is_in (dict d) names = crash
is_in v names = ok false

-- f"{spot}[{index}]"
abbrev pub at_index : (Value → String) → String → ℕ → String
at_index show spot i = append spot (append "[" (append (show (int (pos i))) "]"))

-- part.get("image_url", part.get("image"))
abbrev pub image_value : Fields → Value
image_value part = elim (get "image_url" part) [ none ↦ get_or_null "image" part | some v ↦ v ]

abbrev pub inner_url : Value → Value
inner_url (dict d) = get_or_null "url" d
inner_url v = v

-- a text that is not blank, stripped
unfoldable pub stripped_ref : String → Value → Result String
unfolding strip
stripped_ref spot (str s) =
    if blank (strip s) then err (invalid_request (append spot ".image_url")) else ok (strip s)
stripped_ref spot v = err (invalid_request (append spot ".image_url"))

-- _image_ref
unfoldable pub image_ref : Fields → String → Result String
unfolding get stripped_ref
image_ref part spot = stripped_ref spot (inner_url (image_value part))

abbrev pub part_text : (Value → String) → Value → String
part_text show null = ""
part_text show v = text_of show v

-- A message's content, or one part of it: the texts joined, the image references in order.
pub record Content : Type 0 where
  pub text : String
  pub refs : List String

abbrev pub only_text : String → Content
only_text s = record { text = s; refs = [] }

-- a part of a type that is neither known nor unhashable is refused
abbrev pub read_object : (Value → String) → Fields → String → Bool → Bool → Result Content
read_object show part spot is_text is_image =
    if is_text
    then ok (only_text (part_text show (get_or_null "text" part)))
    else if is_image
    then image_ref part spot >>= (λ ref. ok (record { text = ""; refs = ref ∷ [] }))
    else err (unsupported (append spot ".type"))

-- _read_part
unfoldable pub read_part : (Value → String) → Value → String → Result Content
unfolding get image_ref
read_part show (str s) spot = ok (only_text s)
read_part show (dict part) spot = do
  is_text ← is_in (get_or_null "type" part) text_part_types
  is_image ← is_in (get_or_null "type" part) image_part_types
  read_object show part spot is_text is_image
read_part show v spot = err (invalid_request spot)

-- `if text: texts.append(text)`
abbrev pub add_text : String → List String → List String
add_text text texts = if blank text then texts else text ∷ texts

pub record Parts : Type 0 where
  pub texts : List String
  pub refs : List String

abbrev pub add_part : Content → Parts → Parts
add_part part rest = record { texts = add_text part.text rest.texts; refs = part.refs ++ rest.refs }

unfoldable pub read_parts : (Value → String) → String → ℕ → Items → Result Parts
unfolding read_part
read_parts show spot i nil = ok (record { texts = []; refs = [] })
read_parts show spot i (cons v vs) = do
  part ← read_part show v (at_index show spot i)
  rest ← read_parts show spot (suc i) vs
  ok (add_part part rest)

-- _read_content
unfoldable pub read_content : (Value → String) → Value → String → Result Content
unfolding read_parts join
read_content show null spot = ok (only_text "")
read_content show (str s) spot = ok (only_text s)
read_content show (list vs) spot = do
  parts ← read_parts show spot 0 vs
  ok (record { text = join "\n" parts.texts; refs = parts.refs })
read_content show v spot = err (invalid_request spot)

abbrev pub to_items : List String → Items
to_items [] = nil
to_items (s ∷ rest) = cons (str s) (to_items rest)

-- one reference, or the list of them
abbrev pub image_of : List String → Value
image_of (s ∷ []) = str s
image_of refs = list (to_items refs)

-- _attach_images
unfoldable pub attach_images : List String → Fields → Fields
unfolding put
attach_images refs canonical =
    if is_empty refs then canonical else put "image" (image_of refs) canonical
