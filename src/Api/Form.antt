-- ===== src/Api/Form.antt =====
-- adapter/api/image_edits.py: normalise_edits_form, from the fields of a parsed multipart form. `b64encode`
-- is base64.b64encode as text, and `int_of` is `int(text)` or none.
pub mod References
pub mod Given
use Prim.Native.Nat.{◌-◌}
use image_adapter.Base.{
  ℕ, String, Bool, true, false, not, ◌&&◌, ◌||◌, Option, none, some, List, [], ◌∷◌, ltb, length,
  elem, is_empty, ◌==◌, if◌then◌else◌,
}
use image_adapter.Text.{strip, blank, append, take, text_length, ends_with, starts_with}
use image_adapter.Errors.{Result, ok, err, ◌>>=◌, invalid_request}
use image_adapter.Value.{ℤ, Value, int, str, Fields, end, Bytes, put}
use image_adapter.Api.Parts.{image_of}
use image_adapter.Api.Reply.{bytes_start, drop_bytes, mime_in}

-- an uploaded file with its declared type, or a text
pub data FormValue : Type 0 where
  upload : Bytes → Option String → FormValue
  text : String → FormValue

-- A field: its key, and its values, of which there is at least one.
pub record FormField : Type 0 where
  pub key : String
  pub first : FormValue
  pub others : List FormValue

abbrev pub int_fields : List String
int_fields = "n" ∷ []

abbrev pub file_fields : List String
file_fields = "image" ∷ "mask" ∷ []

abbrev pub mime_by_magic : List (Bytes × String)
mime_by_magic =
    (0x89 ∷ 0x50 ∷ 0x4e ∷ 0x47 ∷ 0x0d ∷ 0x0a ∷ 0x1a ∷ 0x0a ∷ [], "image/png")
    ∷ (0xff ∷ 0xd8 ∷ 0xff ∷ [], "image/jpeg")
    ∷ (0x47 ∷ 0x49 ∷ 0x46 ∷ 0x38 ∷ 0x37 ∷ 0x61 ∷ [], "image/gif")
    ∷ (0x47 ∷ 0x49 ∷ 0x46 ∷ 0x38 ∷ 0x39 ∷ 0x61 ∷ [], "image/gif")
    ∷ (0x42 ∷ 0x4d ∷ [], "image/bmp")
    ∷ []

abbrev pub unknown_mime : String
unknown_mime = "application/octet-stream"

abbrev pub declared_mime : Option String → String
declared_mime none = unknown_mime
declared_mime (some declared) = if starts_with declared "image/" then declared else unknown_mime

-- RIFF....WEBP and ....ftypavif or ....ftypavis
abbrev pub sniff_container : Bytes → Option String → String
sniff_container raw declared =
    if bytes_start raw (0x52 ∷ 0x49 ∷ 0x46 ∷ 0x46 ∷ [])
      && bytes_start (drop_bytes 8 raw) (0x57 ∷ 0x45 ∷ 0x42 ∷ 0x50 ∷ [])
    then "image/webp"
    else if bytes_start (drop_bytes 4 raw)
          (0x66 ∷ 0x74 ∷ 0x79 ∷ 0x70 ∷ 0x61 ∷ 0x76 ∷ 0x69 ∷ 0x66 ∷ [])
        || bytes_start (drop_bytes 4 raw)
            (0x66 ∷ 0x74 ∷ 0x79 ∷ 0x70 ∷ 0x61 ∷ 0x76 ∷ 0x69 ∷ 0x73 ∷ [])
    then "image/avif"
    else declared_mime declared

-- _sniff_mime
unfoldable pub sniff_mime : Bytes → Option String → String
unfolding starts_with
sniff_mime raw declared = mime_in raw mime_by_magic (sniff_container raw declared)

-- key[:-2] of a key that ends with `[]`
unfoldable pub field_name : String → String
unfolding ends_with take text_length
field_name key = if ends_with key "[]" then take (text_length key - 2) key else key

abbrev pub last_value : FormValue → List FormValue → FormValue
last_value v [] = v
last_value v (next ∷ rest) = last_value next rest

abbrev pub first_ref : List String → Value
first_ref [] = str ""
first_ref (ref ∷ refs) = str ref

-- nothing for an empty field; one reference, or the list of them for `image`
unfoldable pub put_refs : String → List String → Fields → Fields
unfolding put
put_refs field refs body =
    if is_empty refs
    then body
    else put field (if field == "image" then image_of refs else first_ref refs) body

module _ (b64encode : Bytes → String) (int_of : String → Option ℤ) where
  abbrev pub data_uri : String → Bytes → String
  data_uri mime raw = append "data:" (append mime (append ";base64," (b64encode raw)))

  -- _read_upload
  unfoldable pub read_upload : String → ℕ → Bytes → Option String → Result (Option String)
  unfolding sniff_mime
  read_upload param max_bytes raw declared =
      if is_empty raw
      then ok none
      else if ltb max_bytes (length raw)
      then err (invalid_request param)
      else if sniff_mime raw declared == unknown_mime
      then err (invalid_request param)
      else ok (some (data_uri (sniff_mime raw declared) raw))

  -- the reference that a value gives, if it gives one
  unfoldable pub read_ref : String → ℕ → FormValue → Result (Option String)
  unfolding read_upload strip
  read_ref param max_bytes (upload raw declared) = read_upload param max_bytes raw declared
  read_ref param max_bytes (text s) = ok (if blank (strip s) then none else some (strip s))

  abbrev pub add_ref : Option String → List String → List String
  add_ref none refs = refs
  add_ref (some ref) refs = ref ∷ refs

  unfoldable pub read_refs : String → ℕ → List FormValue → Result (List String)
  unfolding read_ref
  read_refs param max_bytes [] = ok []
  read_refs param max_bytes (v ∷ vs) = do
    ref ← read_ref param max_bytes v
    refs ← read_refs param max_bytes vs
    ok (add_ref ref refs)

  -- _coerce_int
  abbrev pub coerce_int : String → Value
  coerce_int raw = elim (int_of raw) [ none ↦ str raw | some n ↦ int n ]

  unfoldable pub put_text : String → FormValue → Fields → Result Fields
  unfolding put
  put_text field (upload raw declared) body = err (invalid_request field)
  put_text field (text s) body =
      ok (put field (if elem field int_fields then coerce_int s else str s) body)

  -- one turn of the loop
  unfoldable pub read_field : ℕ → FormField → Fields → Result Fields
  unfolding field_name read_refs put_refs put_text
  read_field max_bytes f body =
      let field = field_name f.key in
      if elem field file_fields
      then read_refs field max_bytes (f.first ∷ f.others)
        >>= (λ refs. ok (put_refs field refs body))
      else put_text field (last_value f.first f.others) body

  unfoldable pub read_fields : ℕ → List FormField → Fields → Result Fields
  unfolding read_field
  read_fields max_bytes [] body = ok body
  read_fields max_bytes (f ∷ fields) body =
      read_field max_bytes f body >>= λ next. read_fields max_bytes fields next

  -- normalise_edits_form
  unfoldable pub normalise_edits_form : ℕ → List FormField → Result Fields
  unfolding read_fields
  normalise_edits_form max_bytes form = read_fields max_bytes form end
