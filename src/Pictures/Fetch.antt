-- ===== src/Pictures/Fetch.antt =====
-- adapter/ctxapi/image_ref.py: download_image, from the guard to the cache. Spans and logs are left out.
pub mod Downloaded
use image_adapter.Base.{
  ℕ, String, Bool, ◌||◌, not, Option, none, some, [], ◌∷◌, ltb, leb, is_empty, ◌==◌, if◌then◌else◌,
}
use Prim.Native.String.{[], ◌∷◌}
use image_adapter.Text.{append, strip, lower, blank, partition, starts_with}
use image_adapter.Errors.{AdapterError, Result, ok, err, ◌>>=◌, invalid_request, upstream_error}
use image_adapter.Settings.{Settings}
use image_adapter.UrlGuard.{check_url}
use image_adapter.Value.{Value, str, Bytes}
use image_adapter.Transport.{Reading, read, too_large, timed_out, lost, read_capped}
use image_adapter.Engine.{
  Response, Exchange, no_answer, no_connection, replied, Exec, proceed, lift,
}
use image_adapter.Pictures.Codec.{Assets, CacheAnswer, unavailable, answered, sniff, is_url}

-- ImageRefMixin._require_ref
unfoldable pub require_ref : Value → Result String
unfolding strip
require_ref (str ref) = if blank (strip ref) then err (invalid_request "image") else ok (strip ref)
require_ref v = err (invalid_request "image")

abbrev pub image_too_large : AdapterError
image_too_large = upstream_error "image_too_large" 413 none ""

abbrev pub download_timeout : AdapterError
download_timeout = upstream_error "image_download_timeout" 504 none ""

abbrev pub download_failed : Option ℕ → AdapterError
download_failed status = upstream_error "image_download_failed" 502 status ""

-- the media type of a Content-Type header
unfoldable pub media_type : String → String
unfolding partition strip lower
media_type header = lower (strip (partition b';' header).head)

-- ImageRefMixin._refuse_non_image
unfoldable pub refuse_non_image : String → Bytes → Result Bytes
unfolding starts_with
refuse_non_image content_type raw =
    if blank content_type || starts_with content_type "image/"
    then ok raw
    else if not (sniff raw == "application/octet-stream")
    then ok raw
    else err (upstream_error "image_content_type" 400 none "")

-- what follows the bounded read
unfoldable pub judge_body : String → Reading → Result Bytes
unfolding refuse_non_image
judge_body content_type (read raw) = refuse_non_image content_type raw
judge_body content_type too_large = err image_too_large
judge_body content_type timed_out = err download_timeout
judge_body content_type lost = err (download_failed none)

-- ImageRefMixin._fetch_capped, from how the exchange began
unfoldable pub judge_reply : ℕ → Exchange → Result Bytes
unfolding media_type judge_body read_capped
judge_reply limit no_answer = err download_timeout
judge_reply limit no_connection = err (download_failed none)
judge_reply limit (replied resp) =
    if leb 400 resp.status
    then err (download_failed (some resp.status))
    else judge_body (media_type resp.content_type) (read_capped resp.content_length resp.body limit)

-- the value of the cache that counts as a hit
unfoldable pub hit : CacheAnswer → Option Bytes
hit unavailable = none
hit (answered none) = none
hit (answered (some raw)) = if is_empty raw then none else some raw

module _ {St : Type 0} (a : Assets St) (settings : Settings) where
  abbrev pub cache_key : String → String
  cache_key url = append "img:" (a.digest url)

  -- ImageRefMixin._fetch_capped
  unfoldable pub fetch_capped : String → Exec St Bytes
  unfolding judge_reply
  fetch_capped url s = (judge_reply settings.max_asset_bytes (a.fetch url s).0, (a.fetch url s).1)

  -- a picture that was fetched goes to the cache
  abbrev pub keep_fetched : String → Result Bytes × St → Result Bytes × St
  keep_fetched url (ok raw, s) = (ok raw, a.keep (cache_key url) raw s)
  keep_fetched url (r, s) = (r, s)

  unfoldable pub fetch_unless : String → Option Bytes → Exec St Bytes
  unfolding fetch_capped
  fetch_unless url (some raw) s = (ok raw, s)
  fetch_unless url none s = keep_fetched url (fetch_capped url s)

  -- `download_image` behind the guard
  unfoldable pub download_checked : String → Exec St Bytes
  unfolding fetch_unless hit
  download_checked url s =
      let (answer, after) = a.cached (cache_key url) s in fetch_unless url (hit answer) after

  abbrev pub check_remote : String → Result String
  check_remote url =
      if is_url url
      then check_url a.ip_address url settings "ctx.download_image(url)"
      else err (invalid_request "image")

  -- ImageRefMixin.download_image
  unfoldable pub download_image : Value → Exec St Bytes
  unfolding require_ref is_url check_url download_checked
  download_image ref s = proceed (require_ref ref >>= check_remote) download_checked s
