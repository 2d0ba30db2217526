-- ===== src/Pictures/Shapes/Links.antt =====
-- Whose link rehost_image gives.
use image_adapter.Base.{
  String, true, false, ◌≡◌, refl, Option, none, some, inl, inr, Bool-cases, Option-cases,
  if◌then◌else◌, sym,
}
use mathlib.Core.Path.{subst}
use image_adapter.Text.{strip, blank, append}
use image_adapter.Errors.{Result, ok, err, crash}
use image_adapter.Settings.{Settings}
use image_adapter.Value.{Value, str, Bytes}
use image_adapter.Pictures.Codec.{Assets, is_url, sniff}
use image_adapter.Pictures.Shapes.{
  extension, temp_key, link_or, image_bytes, upload_temp_image, upload_as, url_of_bytes, rehost_ref,
  rehost_image,
}

module _ {St : Type 0} (a : Assets St) (settings : Settings) where
  -- A link that the store gave for the bytes of a reference.
  pub record IsStored (ref : Value) (s : St) (url : String) : Type 0 where
    pub raw : Bytes
    pub key : String
    pub fetched : St
    pub named : St
    pub put : Bytes → String → String → St → Option String × St
    pub bytes : image_bytes a settings ref s ≡ (ok raw, fetched)
    pub configured : a.storage ≡ some put
    pub given : (put raw key (append "image/" (extension (sniff raw) "png")) named).0 ≡ some url
    pub link : is_url url ≡ true

  -- a data URI is no link
  data_uri_no_link : (mime : String) → is_url (append "data:" mime) ≡ false
  unfolding is_url
  data_uri_no_link mime = refl

  link_or-some :
      (rest url : String) (found : Option String)
      → is_url (link_or a settings (append "data:" rest) found) ≡ true
      → url ≡ link_or a settings (append "data:" rest) found
      → (found ≡ some url) × (is_url url ≡ true)
  link_or-some rest url none h e = absurd (cc (data_uri_no_link rest))
  link_or-some rest url (some other) h e = elim (Bool-cases (is_url other)) [
    | inl link ↦ (rw (e, link) refl, rw (e, link) link)
    | inr other ↦ absurd (cc (data_uri_no_link rest, (rw other at h)))
  ]

  upload-IsStored :
      (ref : Value) (s after : St) (raw : Bytes) (url : String)
      → image_bytes a settings ref s ≡ (ok raw, after)
      → (upload_temp_image a settings raw (extension (sniff raw) "png") after).0 ≡ url
      → is_url url ≡ true
      → IsStored ref s url
  unfolding upload_temp_image
  upload-IsStored ref s after raw url b e link = elim (Option-cases a.storage) [
    | inl off ↦ absurd (cc (rw (← e, off) at link))
    | inr (put, on) ↦
        let (id, named) = a.new_id after in
        let key = temp_key a.date settings.storage_key_prefix id (extension (sniff raw) "png") in
        let mime = append "image/" (extension (sniff raw) "png") in
        let (found, good) =
          link_or-some _ url (put raw key mime named).0 (rw (← e, on) at link) (sym (rw on at e)) in
        record {
          raw = raw;
          key = key;
          fetched = after;
          named = named;
          put = put;
          bytes = b;
          configured = on;
          given = found;
          link = good;
        }
  ]

  rehost_ref-IsStored :
      (ref : Value) (s : St) (url : String)
      → (rehost_ref a settings ref s).0 ≡ ok (some url)
      → (m : Result Bytes × St) → image_bytes a settings ref s ≡ m
      → IsStored ref s url
  unfolding rehost_ref url_of_bytes upload_as
  rehost_ref-IsStored ref s url h (ok raw, after) b =
      let stored = (upload_temp_image a settings raw (extension (sniff raw) "png") after).0 in
      let kept : ◌≡◌ {A = Result (Option String)} (ok (if is_url stored then some stored else none))
          (ok (some url)) =
        rw b at h in
      elim (Bool-cases (is_url stored)) [
        | inl link ↦
            let same : stored ≡ url = cc (rw link at kept) in
            upload-IsStored ref s after raw url b same (subst (λ u. is_url u ≡ true) same link)
        | inr other ↦ absurd (cc (rw other at kept))
      ]
  rehost_ref-IsStored ref s url h (err e, after) b = absurd (cc (rw b at h))
  rehost_ref-IsStored ref s url h (crash, after) b = absurd (cc (rw b at h))

  -- A link that rehost_image gives is one that the store gave for the bytes that the reference
  -- stands for, and an http or https URL: never the vendor's own link, and never a data URI.
  pub rehost_image-IsStored :
      (ref : String) (s : St) (url : String)
      → (rehost_image a settings (str ref) s).0 ≡ ok (some url)
      → IsStored (str (strip ref)) s url
  unfolding rehost_image
  rehost_image-IsStored ref s url h = elim (Bool-cases (blank (strip ref))) [
    | inl empty ↦ absurd (cc (rw empty at h))
    | inr given ↦
        rehost_ref-IsStored (str (strip ref)) s url (rw given at h)
          (image_bytes a settings (str (strip ref)) s) refl
  ]
