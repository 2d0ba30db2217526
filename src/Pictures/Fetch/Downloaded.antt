-- ===== src/Pictures/Fetch/Downloaded.antt =====
-- What a download is.
use image_adapter.Base.{ℕ, String, true, ◌≤◌, ◌<◌, ◌≡◌, ◌≢◌, ◌⊎◌, none, some, length}
use image_adapter.Text.{strip, blank, starts_with}
use image_adapter.Settings.{Settings}
use image_adapter.UrlGuard.Guards.{IsOutbound}
use image_adapter.Value.{Value, str, Bytes}
use image_adapter.Transport.Capped.{delivered}
use image_adapter.Engine.{Response, replied}
use image_adapter.Pictures.Codec.{Assets, sniff, is_url}
use image_adapter.Pictures.Fetch.{media_type, hit, cache_key}

-- a body that neither its header nor its bytes disclaim
abbrev pub IsPicture : String → Bytes → Type 0
IsPicture content_type raw =
    (blank content_type ≡ true)
    ⊎ ((starts_with content_type "image/" ≡ true) ⊎ (sniff raw ≢ "application/octet-stream"))

-- A reply that carries a picture, whole and within the limit.
pub record Carries (limit : ℕ) (resp : Response) (raw : Bytes) : Type 0 where
  pub succeeded : resp.status < 400
  pub whole : raw ≡ delivered resp.body
  pub within : length raw ≤ limit
  pub picture : IsPicture (media_type resp.content_type) raw

module _ {St : Type 0} (a : Assets St) (settings : Settings) where
  -- Where a downloaded picture comes from: the cache has it, or a fetch brought it and the cache keeps it.
  pub data Origin (url : String) (s : St) (raw : Bytes) : St → Type 0 where
    from_cache :
        (after : St)
        → hit (a.cached (cache_key a settings url) s).0 ≡ some raw
        → after ≡ (a.cached (cache_key a settings url) s).1
        → Origin url s raw after
    from_host :
        (resp : Response) (missed fetched after : St)
        → hit (a.cached (cache_key a settings url) s).0 ≡ none
        → missed ≡ (a.cached (cache_key a settings url) s).1
        → a.fetch url missed ≡ (replied resp, fetched)
        → Carries settings.max_asset_bytes resp raw
        → after ≡ a.keep (cache_key a settings url) raw fetched
        → Origin url s raw after

  -- the URL that a reference passes the guard as
  pub record IsRemote (ref : Value) (url : String) : Type 0 where
    pub text : String
    pub is_text : ref ≡ str text
    pub remote : is_url (strip text) ≡ true
    pub outbound : IsOutbound a.ip_address settings url
