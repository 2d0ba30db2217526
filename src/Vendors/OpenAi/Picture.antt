-- ===== src/Vendors/OpenAi/Picture.antt =====
-- The picture of an item of a reply.
use image_adapter.Base.{
  String, true, false, ◌≡◌, ◌∙◌, ap, sym, refl, Option, none, some, inl, inr, Bool-cases,
  Option-cases,
}
use mathlib.Core.Path.{subst}
use image_adapter.Errors.{Result, ok, err, crash}
use image_adapter.Engine.{proceed, pure}
use image_adapter.Value.{str, Fields, Bytes, get_or_null}
use image_adapter.Pictures.Codec.{Assets, is_url, is_data_uri, decode_b64}
use image_adapter.Pictures.Fetch.{download_image}
use image_adapter.Vendors.Context.{ScriptContext}
use image_adapter.Vendors.OpenAi.Reply.{given_text, or_fail, url_bytes, payload_bytes}

module _ {St : Type 0} (a : Assets St) (c : ScriptContext) where
  -- The picture of an item, read from a state, and the state after: that of its base64, or else of its
  -- data URI, or else what its link gives.
  pub data IsPicture (item : Fields) (s : St) : Bytes → St → Type 0 where
    of_base64 :
        (b64 : String) (raw : Bytes)
        → given_text (get_or_null "b64_json" item) ≡ some b64
        → decode_b64 a b64 ≡ ok raw
        → IsPicture item s raw s
    of_data_uri :
        (url : String) (raw : Bytes)
        → given_text (get_or_null "b64_json" item) ≡ none
        → given_text (get_or_null "url" item) ≡ some url
        → is_data_uri url ≡ true
        → decode_b64 a url ≡ ok raw
        → IsPicture item s raw s
    of_link :
        (url : String) (raw : Bytes)
        → given_text (get_or_null "b64_json" item) ≡ none
        → given_text (get_or_null "url" item) ≡ some url
        → is_data_uri url ≡ false
        → is_url url ≡ true
        → (download_image a c.settings (str url) s).0 ≡ ok raw
        → IsPicture item s raw (download_image a c.settings (str url) s).1

  -- what is read is what is found
  read_as :
      (r : Result Bytes) (t : St) (raw : Bytes)
      → (proceed r (λ got. pure (some got)) t).0 ≡ ok (some raw)
      → (r ≡ ok raw) × ((proceed r (λ got. pure (some got)) t).1 ≡ t)
  read_as (ok got) t raw h = (cc h, refl)
  read_as (err e) t raw h = absurd (cc)
  read_as crash t raw h = absurd (cc)

  module _ (item : Fields) where
    url_bytes-IsPicture :
        (s : St) (raw : Bytes) (found : Option String)
        → given_text (get_or_null "b64_json" item) ≡ none
        → given_text (get_or_null "url" item) ≡ found
        → (url_bytes a c found s).0 ≡ ok (some raw)
        → IsPicture item s raw (url_bytes a c found s).1
    unfolding url_bytes
    url_bytes-IsPicture s raw none bare e h = absurd (cc)
    url_bytes-IsPicture s raw (some url) bare e h = elim (Bool-cases (is_data_uri url)) [
      | inl is_data ↦
          let (decoded, at) = read_as (decode_b64 a url) s raw (rw is_data at h) in
          rw (is_data, at) (of_data_uri url raw bare e is_data decoded)
      | inr other ↦ elim (Bool-cases (is_url url)) [
        | inl link ↦
            let got = download_image a c.settings (str url) s in
            let (fetched, at) = read_as got.0 got.1 raw (rw (other, link) at h) in
            rw (other, link, at) (of_link url raw bare e other link fetched)
        | inr no_link ↦ absurd (cc (rw (other, no_link) at h))
      ]
    ]

    without_base64 :
        given_text (get_or_null "b64_json" item) ≡ none
        → payload_bytes a c item ≡ url_bytes a c (given_text (get_or_null "url" item))
    unfolding payload_bytes
    without_base64 bare = rw (bare, payload_bytes) refl

    with_base64 :
        (b64 : String)
        → given_text (get_or_null "b64_json" item) ≡ some b64
        → (s : St)
        → payload_bytes a c item s ≡ proceed (decode_b64 a b64) (λ raw. pure (some raw)) s
    unfolding payload_bytes
    with_base64 b64 has s = rw (has, payload_bytes) refl

    payload_bytes-IsPicture :
        (s : St) (raw : Bytes)
        → (payload_bytes a c item s).0 ≡ ok (some raw)
        → IsPicture item s raw (payload_bytes a c item s).1
    unfolding payload_bytes
    payload_bytes-IsPicture s raw h =
        elim (Option-cases (given_text (get_or_null "b64_json" item))) [
          | inr (b64, has) ↦
              let same = with_base64 b64 has s in
              let (decoded, at) = read_as (decode_b64 a b64) s raw (sym (ap (λ m. m.0) same) ∙ h) in
              subst (IsPicture item s raw) (sym (ap (λ m. m.1) same ∙ at))
                (of_base64 b64 raw has decoded)
          | inl bare ↦
              let url = given_text (get_or_null "url" item) in
              let same = without_base64 bare in
              subst (λ m. IsPicture item s raw (m s).1) (sym same)
                (url_bytes-IsPicture s raw url bare refl (sym (ap (λ m. (m s).0) same) ∙ h))
        ]

    -- the picture of an item, or the failure of an item that has none
    pub picture_of :
        (s : St) (found : Option Bytes) (raw : Bytes)
        → (payload_bytes a c item s).0 ≡ ok found
        → (or_fail a c found (payload_bytes a c item s).1).0 ≡ ok raw
        → IsPicture item s raw (or_fail a c found (payload_bytes a c item s).1).1
    picture_of s none raw e h = absurd (cc)
    picture_of s (some got) raw e h =
        let same : got ≡ raw = cc h in
        payload_bytes-IsPicture s raw (e ∙ ap (λ r. ok (some r)) same)
