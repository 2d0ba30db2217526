-- ===== src/Pictures/Shapes/Agreement.antt =====
-- image_b64 and image_bytes agree.
use image_adapter.Base.{String, ◌≡◌, refl, inl, inr, Bool-cases, ltb, length}
use image_adapter.Text.{strip, blank}
use image_adapter.Errors.{Result, ok, err, crash, ◌>>=◌}
use image_adapter.Settings.{Settings}
use image_adapter.Value.{str, Bytes}
use image_adapter.Engine.{proceed, lift}
use image_adapter.Pictures.Codec.{Assets, bare_base64, is_url, decode_b64}
use image_adapter.Pictures.Fetch.{download_image}
use image_adapter.Pictures.Shapes.{
  within_cap, encoded, bytes_of_ref, image_bytes, b64_of_ref, image_b64,
}

module _ {St : Type 0} (a : Assets St) (settings : Settings)
    (exact : (raw : Bytes) → decode_b64 a (a.b64encode raw) ≡ ok raw) where
  decode_encoded :
      (r : Result Bytes) (s : St)
      → (r, s)
        ≡ proceed
            (proceed r (encoded a settings) s).0
            (λ text. lift (decode_b64 a text))
            (proceed r (encoded a settings) s).1
  decode_encoded (ok raw) s = rw (exact raw) refl
  decode_encoded (err e) s = refl
  decode_encoded crash s = refl

  -- the checks on an inline picture, once they have its bytes
  inline_agrees :
      (m : Result Bytes) (text : String) (s : St)
      → m ≡ decode_b64 a text
      → (m >>= within_cap a settings, s)
        ≡ proceed
            (m >>= within_cap a settings >>= λ raw. ok text)
            (λ text. lift (decode_b64 a text))
            s
  inline_agrees (ok raw) text s h = elim (Bool-cases (ltb settings.max_asset_bytes (length raw))) [
    | inl over ↦ rw over refl
    | inr fits ↦ rw (fits, ← h) refl
  ]
  inline_agrees (err e) text s h = refl
  inline_agrees crash text s h = refl

  decode_bare :
      (ref : String)
      → bare_base64 (bare_base64 ref) ≡ bare_base64 ref
      → decode_b64 a (bare_base64 ref) ≡ decode_b64 a ref
  unfolding decode_b64
  decode_bare ref plain = rw (decode_b64, plain) refl

  bytes_of_ref-b64_of_ref :
      (ref : String) (s : St)
      → bare_base64 (bare_base64 ref) ≡ bare_base64 ref
      → bytes_of_ref a settings ref s
        ≡ proceed
            (b64_of_ref a settings ref s).0
            (λ text. lift (decode_b64 a text))
            (b64_of_ref a settings ref s).1
  unfolding bytes_of_ref b64_of_ref
  bytes_of_ref-b64_of_ref ref s plain = elim (Bool-cases (is_url ref)) [
    | inl url ↦ rw url (
        decode_encoded (download_image a settings (str ref) s).0
          (download_image a settings (str ref) s).1)
    | inr inline ↦
        rw (inline, ← decode_bare ref plain)
          (inline_agrees (decode_b64 a (bare_base64 ref)) (bare_base64 ref) s refl)
  ]

  -- What image_b64 gives for a reference decodes to what image_bytes gives for it: both fail alike, and
  -- both leave the same state; if encoding is undone by decoding, and what is left of the reference
  -- without its data URI's head has no such head again.
  pub image_bytes-image_b64 :
      (ref : String) (s : St)
      → bare_base64 (bare_base64 (strip ref)) ≡ bare_base64 (strip ref)
      → image_bytes a settings (str ref) s
        ≡ proceed
            (image_b64 a settings (str ref) s).0
            (λ text. lift (decode_b64 a text))
            (image_b64 a settings (str ref) s).1
  unfolding image_bytes image_b64
  image_bytes-image_b64 ref s plain = elim (Bool-cases (blank (strip ref))) [
    | inl empty ↦ rw empty refl
    | inr given ↦ rw given (bytes_of_ref-b64_of_ref (strip ref) s plain)
  ]
