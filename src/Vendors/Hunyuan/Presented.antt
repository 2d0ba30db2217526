-- ===== src/Vendors/Hunyuan/Presented.antt =====
-- What the response phase delivers.
use image_adapter.Base.{
  String, true, false, ◌&&◌, ◌≡◌, refl, sym, Option, none, some, List, inl, inr, Bool-cases, lookup,
  or_else, ◌==◌, arith, [],
}
use image_adapter.Text.{strip, blank}
use image_adapter.Errors.{ok}
use image_adapter.Value.{Value, str, dict, Fields, Bytes, get_or_null, put, pop}
use image_adapter.Moderation.{matched_moderation}
use image_adapter.Pictures.Codec.{Assets, is_url, encode_b64}
use image_adapter.Pictures.Fetch.{download_image}
use image_adapter.Pictures.Shapes.{rehost_image}
use image_adapter.Pictures.Shapes.Links.{IsStored, rehost_image-IsStored}
use image_adapter.Vendors.Context.{ScriptContext, ScriptState}
use image_adapter.Vendors.Outcomes.{proceed-eq-ok}
use image_adapter.Vendors.OpenAi.Reply.{wants_ours}
use image_adapter.Vendors.Hunyuan.{
  delta_image, item_of, reply_of, is_error, with_b64, with_link, shaped_item, present, deliver,
  respond_to, respond,
}

module _ {St : Type 0} (a : Assets St) (c : ScriptContext) (decode : Bytes → String)
    (shared : List String) where
  -- The item that a picture is delivered as, from the state in which it is fetched or stored.
  pub data Shaped (want : Option String) (url : String) (item : Fields) (s : St)
      : Fields → Type 0 where
    as_base64 :
        (raw : Bytes)
        → or_else want "" == "b64_json" ≡ true
        → (download_image a c.settings (str url) s).0 ≡ ok raw
        → Shaped want url item s (put "b64_json" (str (encode_b64 a raw)) (pop "url" item))
    our_link :
        (stored : String)
        → or_else want "" == "b64_json" ≡ false
        → wants_ours a c ≡ true
        → is_url url ≡ true
        → IsStored a c.settings (str (strip url)) s stored
        → (rehost_image a c.settings (str url) s).0 ≡ ok (some stored)
        → Shaped want url item s (put "url" (str stored) item)
    unstored :
        or_else want "" == "b64_json" ≡ false
        → wants_ours a c ≡ true
        → is_url url ≡ true
        → (rehost_image a c.settings (str url) s).0 ≡ ok none
        → Shaped want url item s item
    their_link :
        or_else want "" == "b64_json" ≡ false
        → wants_ours a c && is_url url ≡ false
        → Shaped want url item s item

  rehosted-Shaped :
      (want : Option String) (url : String) (item out : Fields) (s t : St) (stored : Option String)
      → or_else want "" == "b64_json" ≡ false
      → wants_ours a c ≡ true
      → is_url url ≡ true
      → (rehost_image a c.settings (str url) s).0 ≡ ok stored
      → (with_link a c decode shared item stored t).0 ≡ ok out
      → Shaped want url item s out
  rehosted-Shaped want url item out s t none link ours is e k =
      let same : item ≡ out = cc k in rw (← same) (unstored link ours is e)
  rehosted-Shaped want url item out s t (some stored) link ours is e k =
      let same : put "url" (str stored) item ≡ out = cc k in
      rw (← same)
        (our_link stored link ours is (rehost_image-IsStored a c.settings url s stored e) e)

  shaped_item-Shaped :
      (want : Option String) (url : String) (item out : Fields) (s : St)
      → (shaped_item a c decode shared want url item s).0 ≡ ok out
      → Shaped want url item s out
  unfolding shaped_item
  shaped_item-Shaped want url item out s h = elim (Bool-cases (or_else want "" == "b64_json")) [
    | inl b64 ↦
        let got = download_image a c.settings (str url) s in
        let (raw, e, k) =
          proceed-eq-ok got.0 (with_b64 a c decode shared item) got.1 (rw b64 at h) in
        let same : put "b64_json" (str (encode_b64 a raw)) (pop "url" item) ≡ out = cc k in
        rw (← same) (as_base64 raw b64 e)
    | inr link ↦ elim (Bool-cases (wants_ours a c && is_url url)) [
      | inl ours ↦
          let got = rehost_image a c.settings (str url) s in
          let (stored, e, k) =
            proceed-eq-ok got.0 (with_link a c decode shared item) got.1 (rw (link, ours) at h) in
          rehosted-Shaped want url item out s got.1 stored link (ground (arith, ours))
            (ground (arith, ours)) e k
      | inr theirs ↦
          let same : item ≡ out = cc (rw (link, theirs) at h) in
          rw (← same) (their_link link theirs)
    ]
  ]

  -- A reply that delivers the picture of its frame.
  pub record IsPresented (payload : Fields) (want : Option String) (s : St) (out : Value)
      : Type 0 where
    pub url : String
    pub item : Fields
    pub accepted : blank (matched_moderation decode shared [] [] (dict payload)) ≡ true
    pub no_error : is_error (get_or_null "error" payload) ≡ false
    pub picture : (delta_image payload).url ≡ str url
    pub filled : blank url ≡ false
    pub shaped : Shaped want url (item_of url (delta_image payload)) s item
    pub reply : out ≡ dict (reply_of payload item)

  deliver-IsPresented :
      (payload : Fields) (v out : Value) (s : ScriptState St)
      → blank (matched_moderation decode shared [] [] (dict payload)) ≡ true
      → is_error (get_or_null "error" payload) ≡ false
      → (delta_image payload).url ≡ v
      → (deliver a c decode shared payload (delta_image payload) v s).0 ≡ ok out
      → IsPresented payload (lookup c.request_id s.parked) s.assets out
  unfolding deliver
  deliver-IsPresented payload (str url) out s accepted no_error e h =
      elim (Bool-cases (blank url)) [
        | inl empty ↦ absurd (cc (rw empty at h))
        | inr given ↦
            let want = lookup c.request_id s.parked in
            let run =
              shaped_item a c decode shared want url (item_of url (delta_image payload)) s.assets in
            let (item, e', k) =
              proceed-eq-ok run.0 (present a c decode shared payload) run.1 (rw given at h) in
            record {
              url = url;
              item = item;
              accepted = accepted;
              no_error = no_error;
              picture = e;
              filled = given;
              shaped =
                  shaped_item-Shaped want url (item_of url (delta_image payload)) item s.assets e';
              reply = sym (cc k);
            }
      ]
  deliver-IsPresented payload v out s accepted no_error e h = absurd (cc)

  -- A final frame that the response phase answers with a result is no refusal and no error, and has a
  -- picture: the result delivers it as one item, by the format that the client asked for. For base64 the
  -- item has that of the picture, fetched, in place of its URL. Else, where the channel asks for links of
  -- ours and the picture's is an http or https one, the item has the link under which the store keeps the
  -- picture's bytes, or the vendor's where rehosting the picture gives none; and in all other cases it has
  -- the vendor's. A frame without a picture is never a result.
  pub respond-IsPresented :
      (payload : Fields) (out : Value) (s : ScriptState St)
      → (respond a c decode shared (dict payload) s).0 ≡ ok out
      → IsPresented payload (lookup c.request_id s.parked) s.assets out
  unfolding respond respond_to
  respond-IsPresented payload out s h =
      elim (Bool-cases (blank (matched_moderation decode shared [] [] (dict payload)))) [
        | inl accepted ↦ elim (Bool-cases (is_error (get_or_null "error" payload))) [
          | inl fails ↦ absurd (cc (rw (accepted, fails) at h))
          | inr no_error ↦
              deliver-IsPresented payload (delta_image payload).url out s accepted no_error refl
                (rw (accepted, no_error) at h)
        ]
        | inr refused ↦ absurd (cc (rw refused at h))
      ]
