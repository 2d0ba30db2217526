-- ===== src/Vendors/OpenAi/Asking.antt =====
-- script_store/openai/images@v1.py, the request phase: generations as JSON and edits as multipart, from one
-- canonical body.
use Prim.Native.String.{[], ◌∷◌}
use image_adapter.Base.{
  ℕ, suc, String, not, ◌&&◌, Option, none, some, List, [], ◌∷◌, ◌++◌, Assoc, ltb, length, elem,
  if◌then◌else◌,
}
use image_adapter.Text.{append, blank, has_char, partition}
use image_adapter.Errors.{Result, ok, crash}
use image_adapter.Url.{urlparse, urlunparse}
use image_adapter.Value.{
  Value, null, int, pos, str, list, dict, Fields, end, field, Bytes, get, get_or_null, truthy,
  is_null,
}
use image_adapter.Plan.{FilePart, Emission}
use image_adapter.Transport.{as_text}
use image_adapter.Engine.{Exec, ◌>>=◌, ◌>>◌, pure, lift}
use image_adapter.Pictures.Codec.{Assets, sniff}
use image_adapter.Pictures.Shapes.{rstrip_slashes, image_bytes}
use image_adapter.Vendors.Context.{
  ScriptContext, ScriptState, on_assets, fan_out, values, park, emit,
}

abbrev pub file_fields : List String
file_fields = "image" ∷ "mask" ∷ []

abbrev pub carriers : List String
carriers = "url" ∷ "b64_json" ∷ []

-- s.rpartition("/")[0]
unfoldable pub before_last_slash : String → String
unfolding has_char
before_last_slash [] = []
before_last_slash (c ∷ s) = if has_char b'/' s then c ∷ before_last_slash s else []

-- _sibling_edits_url; urlsplit raises ValueError where urlparse does
unfoldable pub sibling_edits_url : String → Result String
unfolding urlparse urlunparse before_last_slash rstrip_slashes
sibling_edits_url url = elim (urlparse url) [
  | none ↦ crash
  | some parts ↦ ok (
      urlunparse
        (record parts { path = append (before_last_slash (rstrip_slashes parts.path)) "/edits" }))
]

-- the part of a MIME type after the slash, without its suffix
unfoldable pub subtype : String → String
unfolding partition
subtype mime =
    let split = partition b'/' mime in
    (partition b'+' (if split.found then split.tail else mime)).head

-- _filename
unfoldable pub file_name : String → String → String
unfolding subtype
file_name stem mime =
    append stem (append "." (if blank (subtype mime) then "bin" else subtype mime))

-- _requested_format
unfoldable pub requested_format : Fields → Option String
unfolding get
requested_format payload = elim (get_or_null "response_format" payload) [
  | str format ↦ if elem format carriers then some format else none
  | _ ↦ none
]

-- the text fields of an edit
unfoldable pub text_fields : (Value → String) → Fields → Fields
text_fields show end = end
text_fields show (field k v d) =
    let rest = text_fields show d in
    if not (elem k file_fields) && not (is_null v)
    then field k (str (as_text show v)) rest
    else rest

abbrev pub refs_of : Value → List Value
refs_of (list refs) = values refs
refs_of ref = ref ∷ []

-- f"image{i}" for each reference
unfoldable pub stems : (Value → String) → ℕ → List Value → List (Value × String)
stems show i [] = []
stems show i (ref ∷ refs) = (ref, append "image" (show (int (pos i)))) ∷ stems show (suc i) refs

abbrev pub mask_of : Fields → List (Value × String)
mask_of payload =
    let mask = get_or_null "mask" payload in if truthy mask then (mask, "mask") ∷ [] else []

-- parts[:n] and parts[n:]
unfoldable pub first_parts : List Value → List FilePart → List FilePart
first_parts [] parts = []
first_parts (ref ∷ refs) [] = []
first_parts (ref ∷ refs) (part ∷ parts) = part ∷ first_parts refs parts

unfoldable pub other_parts : List Value → List FilePart → List FilePart
other_parts [] parts = parts
other_parts (ref ∷ refs) [] = []
other_parts (ref ∷ refs) (part ∷ parts) = other_parts refs parts

abbrev pub image_field : List Value → String
image_field refs = if ltb 1 (length refs) then "image[]" else "image"

unfoldable pub files_of : Fields → List Value → List FilePart → Assoc (List FilePart)
unfolding first_parts other_parts get truthy
files_of payload refs parts =
    (image_field refs, first_parts refs parts)
    ∷ (if truthy (get_or_null "mask" payload) then ("mask", other_parts refs parts) ∷ [] else [])

-- ctx.emit(url=url, files=files)
abbrev pub emission : String → Assoc (List FilePart) → Emission
emission url files = record {
  url = some url;
  method = none;
  headers = [];
  query = [];
  body = null;
  form = none;
  raw = none;
  files = some files;
  timeout = none;
  local_result = none;
}

module _ {St : Type 0} (a : Assets St) (c : ScriptContext) where
  abbrev pub part_of : String → Bytes → Exec (ScriptState St) FilePart
  part_of stem raw =
      pure (record { filename = file_name stem (sniff raw); content = raw; mime = sniff raw })

  -- _file_part
  unfoldable pub file_part : Value × String → Exec (ScriptState St) FilePart
  unfolding image_bytes file_name
  file_part (ref, stem) = on_assets (image_bytes a c.settings ref) >>= part_of stem

  -- ctx.options.get("edits_url") or the sibling
  unfoldable pub edits_url : Result String
  unfolding get truthy sibling_edits_url
  edits_url =
      let given = get_or_null "edits_url" c.options in
      if truthy given
      then (elim given [ str url ↦ ok url | _ ↦ crash ])
      else sibling_edits_url c.upstream_url

  -- the end of an edit's request phase
  unfoldable pub send_edit : Fields → List Value → List FilePart → Exec (ScriptState St) Value
  unfolding edits_url emit files_of text_fields
  send_edit payload refs parts = lift edits_url >>= λ url.
      emit a c (emission url (files_of payload refs parts))
      >> pure (dict (text_fields c.show payload))

  unfoldable pub edit : Fields → List Value → Exec (ScriptState St) Value
  unfolding fan_out file_part stems send_edit
  edit payload refs =
      fan_out c.settings.fanout_concurrency file_part (stems c.show 0 refs ++ mask_of payload)
      >>= send_edit payload refs

  -- the request phase
  unfoldable pub ask : Fields → Exec (ScriptState St) Value
  unfolding park requested_format edit
  ask payload s =
      let image = get_or_null "image" payload in
      let asked = park a c (requested_format payload) s in
      if truthy image then edit payload (refs_of image) asked else (ok (dict payload), asked)
