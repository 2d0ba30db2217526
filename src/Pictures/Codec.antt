-- ===== src/Pictures/Codec.antt =====
-- adapter/ctxapi/codec.py: base64, data URIs and MIME types; and what the picture helpers need of the
-- outside, as a record. A picture is a list of bytes.
use Prim.Native.String.{[], ◌∷◌}
use image_adapter.Base.{String, Bool, ◌&&◌, ◌||◌, Option, none, some, List, [], ◌∷◌, if◌then◌else◌}
use image_adapter.Text.{append, drop, starts_with, text_length}
use image_adapter.Errors.{Result, ok, err, invalid_request}
use image_adapter.UrlGuard.{IpAddress}
use image_adapter.Value.{Bytes}
use image_adapter.Transport.{contains}
use image_adapter.Engine.{Exchange}
use image_adapter.Api.Reply.{mime_in}
use image_adapter.Api.Form.{sniff_container}

-- What the cache answers: it fails, or it has a value or none.
pub data CacheAnswer : Type 0 where
  unavailable : CacheAnswer
  answered : Option Bytes → CacheAnswer

-- What the picture helpers need of the outside. `put` is the upload of an object store, with the URL
-- it gives or nothing where it fails or takes too long; `b64decode` has none for its ValueError.
pub record Assets (St : Type 0) : Type 0 where
  pub ip_address : String → Option IpAddress
  pub digest : String → String
  pub b64encode : Bytes → String
  pub b64decode : String → Option Bytes
  pub cached : String → St → CacheAnswer × St
  pub keep : String → Bytes → St → St
  pub fetch : String → St → Exchange × St
  pub date : String
  pub new_id : St → String × St
  pub storage : Option (Bytes → String → String → St → Option String × St)

abbrev pub magic : List (Bytes × String)
magic =
    (0x89 ∷ 0x50 ∷ 0x4e ∷ 0x47 ∷ 0x0d ∷ 0x0a ∷ 0x1a ∷ 0x0a ∷ [], "image/png")
    ∷ (0xff ∷ 0xd8 ∷ 0xff ∷ [], "image/jpeg")
    ∷ (0x47 ∷ 0x49 ∷ 0x46 ∷ 0x38 ∷ 0x37 ∷ 0x61 ∷ [], "image/gif")
    ∷ (0x47 ∷ 0x49 ∷ 0x46 ∷ 0x38 ∷ 0x39 ∷ 0x61 ∷ [], "image/gif")
    ∷ (0x00 ∷ 0x00 ∷ 0x01 ∷ 0x00 ∷ [], "image/x-icon")
    ∷ []

-- CodecMixin.sniff_mime
unfoldable pub sniff : Bytes → String
sniff raw = mime_in raw magic (sniff_container raw none)

-- s.split(mark, 1)[1], for a mark that is in the text
unfoldable pub after : String → String → String
unfolding starts_with drop text_length
after mark [] = []
after mark (c ∷ s) =
    if starts_with (c ∷ s) mark then drop (text_length mark) (c ∷ s) else after mark s

-- _bare_base64
unfoldable pub bare_base64 : String → String
unfolding starts_with contains after
bare_base64 value =
    if starts_with value "data:" && contains ";base64," value then after ";base64," value else value

-- CodecMixin.is_url
unfoldable pub is_url : String → Bool
unfolding starts_with
is_url value = starts_with value "http://" || starts_with value "https://"

-- CodecMixin.is_data_uri
unfoldable pub is_data_uri : String → Bool
unfolding starts_with
is_data_uri value = starts_with value "data:"

module _ {St : Type 0} (a : Assets St) where
  -- CodecMixin.encode_b64
  abbrev pub encode_b64 : Bytes → String
  encode_b64 = a.b64encode

  -- CodecMixin.decode_b64
  unfoldable pub decode_b64 : String → Result Bytes
  unfolding bare_base64
  decode_b64 value = elim (a.b64decode (bare_base64 value)) [
    | none ↦ err (invalid_request "image")
    | some raw ↦ ok raw
  ]

  -- CodecMixin.data_uri
  abbrev pub data_uri : Bytes → String → String
  data_uri raw mime = append "data:" (append mime (append ";base64," (encode_b64 raw)))
