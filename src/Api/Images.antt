-- ===== src/Api/Images.antt =====
-- adapter/api/images.py: the checks on the canonical image request. A body that is changed in place is
-- returned; `show` is Python's `str`.
pub mod Canonical
pub mod Fixes
pub mod Validation
use image_adapter.Base.{
  ℕ, ◌*◌, String, Bool, true, false, not, ◌&&◌, Option, none, some, List, [], ◌∷◌, ltb, elem,
  if◌then◌else◌,
}
use image_adapter.Text.{strip, blank, text_length}
use image_adapter.Errors.{Result, ok, err, ◌>>=◌, ◌>>◌, refuse_if, invalid_request}
use image_adapter.Value.{
  Value, null, int, pos, str, list, Items, nil, cons, Fields, get, get_or_null, put, pop, truthy,
  is_null,
}
use image_adapter.Transport.{text_of}

abbrev pub response_formats : List String
response_formats = "url" ∷ "b64_json" ∷ []

abbrev pub max_image_ref_chars : ℕ
max_image_ref_chars = 33554432

-- _check_image_ref
unfoldable pub check_image_ref : String → Value → Result (Unit {0})
unfolding strip text_length
check_image_ref param (str s) =
    if blank (strip s)
    then err (invalid_request param)
    else if ltb max_image_ref_chars (text_length s)
    then err (invalid_request param)
    else ok tt
check_image_ref param v = err (invalid_request param)

unfoldable pub check_image_refs : String → Items → Result (Unit {0})
unfolding check_image_ref
check_image_refs param nil = ok tt
check_image_refs param (cons v vs) = check_image_ref param v >> check_image_refs param vs

-- a usable `n`: an int that is no bool, and at least 1
abbrev pub is_count : Option Value → Bool
is_count none = true
is_count (some (int (pos n))) = ltb 0 n
is_count (some v) = false

unfoldable pub fix_count : Fields → Fields
unfolding get put
fix_count body = if is_count (get "n" body) then body else put "n" (int (pos 1)) body

abbrev pub is_format : Value → Bool
is_format (str s) = elem s response_formats
is_format v = false

unfoldable pub fix_format : Fields → Fields
unfolding get pop
fix_format body =
    if is_format (get_or_null "response_format" body) then body else pop "response_format" body

-- an image that is `null` or `[]`
abbrev pub is_unset : Value → Bool
is_unset null = true
is_unset (list nil) = true
is_unset v = false

unfoldable pub fix_image : Fields → Fields
unfolding get pop
fix_image body = if is_unset (get_or_null "image" body) then pop "image" body else body

-- the check of an image that is there
unfoldable pub check_image : Value → Result (Unit {0})
unfolding check_image_ref check_image_refs
check_image null = ok tt
check_image (list vs) = check_image_refs "image" vs
check_image v = check_image_ref "image" v

unfoldable pub check_mask : Value → Value → Result (Unit {0})
unfolding check_image_ref
check_mask image null = ok tt
check_mask image mask = do
  check_image_ref "mask" mask
  refuse_if (is_null image) (invalid_request "mask")

-- str(body.get("prompt") or "").strip()
abbrev pub prompt_text : (Value → String) → Value → String
prompt_text show v = if truthy v then strip (text_of show v) else ""

unfoldable pub check_prompt : (Value → String) → Value → Value → Result (Unit {0})
unfolding strip truthy
check_prompt show image prompt =
    refuse_if (is_null image && blank (prompt_text show prompt)) (invalid_request "prompt")

-- validate_images_body
unfoldable pub validate_images_body : (Value → String) → Fields → Result Fields
unfolding get fix_count fix_format fix_image check_image check_mask check_prompt
validate_images_body show body = do
  let fixed = fix_image (fix_format (fix_count body))
  let image = get_or_null "image" fixed
  check_image image
  check_mask image (get_or_null "mask" fixed)
  check_prompt show image (get_or_null "prompt" fixed)
  ok fixed
