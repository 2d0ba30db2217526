-- ===== src/Pictures/Shapes.antt =====
-- adapter/ctxapi/image_ref.py and storage.py: a reference is a URL, a data URI or bare base64, and each
-- helper brings it into the shape that its caller needs. An upload that fails degrades to a data URI.
pub mod Agreement
pub mod Links
use Prim.Native.Char.{Char, code}
use Prim.Native.String.{[], ◌∷◌}
use image_adapter.Base.{
  ℕ, String, Bool, Option, none, some, List, [], ◌∷◌, ltb, eqb, length, if◌then◌else◌,
}
use image_adapter.Text.{append, strip, blank, starts_with, drop}
use image_adapter.Errors.{Result, ok, err, ◌>>=◌, invalid_request}
use image_adapter.Settings.{Settings}
use image_adapter.Value.{Value, str, Bytes}
use image_adapter.Engine.{Exec, proceed, pure}
use image_adapter.Pictures.Codec.{
  Assets, sniff, bare_base64, is_url, is_data_uri, encode_b64, decode_b64, data_uri,
}
use image_adapter.Pictures.Fetch.{require_ref, download_image}

-- s.rstrip("/") of what `c` stands before
abbrev pub before_slashes : Char → String → String
before_slashes c [] = if eqb (code c) b'/' then [] else c ∷ []
before_slashes c (d ∷ s) = c ∷ d ∷ s

unfoldable pub rstrip_slashes : String → String
rstrip_slashes [] = []
rstrip_slashes (c ∷ s) = before_slashes c (rstrip_slashes s)

unfoldable pub lstrip_slashes : String → String
lstrip_slashes [] = []
lstrip_slashes (c ∷ s) = if eqb (code c) b'/' then lstrip_slashes s else c ∷ s

-- StorageMixin._temp_key
unfoldable pub temp_key : String → String → String → String → String
unfolding lstrip_slashes rstrip_slashes
temp_key date prefix id ext =
    let name = append id (append "." ext) in
    let inner = rstrip_slashes (lstrip_slashes prefix) in
    append date (append "/" (if blank inner then name else append inner (append "/" name)))

-- the extension of a picture whose type is known, or another
abbrev pub extension : String → String → String
extension mime other = if starts_with mime "image/" then drop 6 mime else other

module _ {St : Type 0} (a : Assets St) (settings : Settings) where
  -- a link of the store, or the data URI
  abbrev pub link_or : String → Option String → String
  link_or uri none = uri
  link_or uri (some url) = if is_url url then url else uri

  -- StorageMixin.upload_temp_image
  unfoldable pub upload_temp_image : Bytes → String → St → String × St
  unfolding temp_key is_url
  upload_temp_image raw ext s =
      let mime = append "image/" ext in
      elim a.storage [
        | none ↦ (data_uri a raw mime, s)
        | some put ↦
            let (id, named) = a.new_id s in
            let (url, after) =
              put raw (temp_key a.date settings.storage_key_prefix id ext) mime named in
            (link_or (data_uri a raw mime) url, after)
      ]

  -- the byte cap on a picture that came inline
  abbrev pub within_cap : Bytes → Result Bytes
  within_cap raw =
      if ltb settings.max_asset_bytes (length raw) then err (invalid_request "image") else ok raw

  -- ImageRefMixin.image_bytes of a stripped reference
  unfoldable pub bytes_of_ref : String → Exec St Bytes
  unfolding is_url download_image decode_b64
  bytes_of_ref ref s =
      if is_url ref
      then download_image a settings (str ref) s
      else (decode_b64 a ref >>= within_cap, s)

  -- ImageRefMixin.image_bytes
  unfoldable pub image_bytes : Value → Exec St Bytes
  unfolding require_ref bytes_of_ref
  image_bytes ref s = proceed (require_ref ref) bytes_of_ref s

  abbrev pub encoded : Bytes → Exec St String
  encoded raw = pure (encode_b64 a raw)

  -- ImageRefMixin.image_b64 of a stripped reference: what came as base64 goes back as it is
  unfoldable pub b64_of_ref : String → Exec St String
  unfolding is_url download_image decode_b64 bare_base64
  b64_of_ref ref s =
      if is_url ref
      then (let (raw, after) = download_image a settings (str ref) s in proceed raw encoded after)
      else (decode_b64 a (bare_base64 ref) >>= within_cap >>= λ raw. ok (bare_base64 ref), s)

  -- ImageRefMixin.image_b64
  unfoldable pub image_b64 : Value → Exec St String
  unfolding require_ref b64_of_ref
  image_b64 ref s = proceed (require_ref ref) b64_of_ref s

  abbrev pub as_data_uri : Bytes → Exec St String
  as_data_uri raw = pure (data_uri a raw (sniff raw))

  unfoldable pub uri_of_bytes : Value → Exec St String
  unfolding image_bytes
  uri_of_bytes ref s = let (raw, after) = image_bytes ref s in proceed raw as_data_uri after

  -- ImageRefMixin.image_data_uri
  unfoldable pub image_data_uri : Value → Exec St String
  unfolding is_data_uri uri_of_bytes strip
  image_data_uri (str ref) s =
      if is_data_uri (strip ref) then (ok (strip ref), s) else uri_of_bytes (str (strip ref)) s
  image_data_uri ref s = uri_of_bytes ref s

  -- a picture to the store, under the extension of its type
  unfoldable pub upload_as : String → Bytes → Exec St String
  unfolding upload_temp_image starts_with drop
  upload_as ext raw s =
      let (url, after) = upload_temp_image raw (extension (sniff raw) ext) s in (ok url, after)

  unfoldable pub url_of_bytes : String → Value → Exec St String
  unfolding image_bytes upload_as
  url_of_bytes ext ref s = let (raw, after) = image_bytes ref s in proceed raw (upload_as ext) after

  -- ImageRefMixin.image_url
  unfoldable pub image_url : String → Value → Exec St String
  unfolding is_url url_of_bytes strip
  image_url ext (str ref) s =
      if is_url (strip ref) then (ok (strip ref), s) else url_of_bytes ext (str ref) s
  image_url ext ref s = url_of_bytes ext ref s

  abbrev pub only_link : String → Exec St (Option String)
  only_link url = pure (if is_url url then some url else none)

  unfoldable pub rehost_ref : Value → Exec St (Option String)
  unfolding url_of_bytes
  rehost_ref ref s = let (url, after) = url_of_bytes "png" ref s in proceed url only_link after

  -- ImageRefMixin.rehost_image
  unfoldable pub rehost_image : Value → Exec St (Option String)
  unfolding rehost_ref strip
  rehost_image (str ref) s =
      if blank (strip ref) then (ok none, s) else rehost_ref (str (strip ref)) s
  rehost_image ref s = (ok none, s)
