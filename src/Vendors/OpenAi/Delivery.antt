-- ===== src/Vendors/OpenAi/Delivery.antt =====
-- What the response phase makes of the items of a reply.
use image_adapter.Base.{
  String, Bool, true, false, ◌≡◌, refl, Option, none, some, List, inl, inr, Bool-cases, lookup,
  ◌==◌,
}
use image_adapter.Text.{strip}
use image_adapter.Errors.{ok}
use image_adapter.Value.{
  Value, str, list, dict, Items, nil, cons, Fields, Bytes, get_or_null, put, is_dict,
}
use image_adapter.Pictures.Codec.{Assets, is_url, encode_b64}
use image_adapter.Pictures.Shapes.{upload_as, rehost_image}
use image_adapter.Pictures.Shapes.Links.{IsStored, rehost_image-IsStored}
use image_adapter.Vendors.Context.{ScriptContext, ScriptState, values, fan_out}
use image_adapter.Vendors.Outcomes.{proceed-eq-ok, Chain, fan_out-Chain}
use image_adapter.Vendors.OpenAi.Reply.{
  with_carrier, given_text, from_values, or_fail, if_link, if_stored, payload_bytes, upload_item,
  link_in, wants_ours, as_url_of, as_url, encode_item, as_b64_of, as_b64, convert_one, put_items,
  shape_of, shape, answer,
}
use image_adapter.Vendors.OpenAi.Script.{respond, transform}
use image_adapter.Vendors.OpenAi.Picture.{IsPicture, picture_of}

module _ {St : Type 0} (a : Assets St) (c : ScriptContext) where
  -- An item as it came, and as it is delivered from a state to a client that wants links, or base64.
  pub data Delivered (want : String) : Value → St → Value → Type 0 where
    no_object : (v : Value) (s : St) → is_dict v ≡ false → Delivered want v s v
    own_link :
        (item : Fields) (url : String) (s : St)
        → (want == "url") ≡ true
        → link_in a c (get_or_null "url" item) ≡ some url
        → wants_ours a c ≡ false
        → Delivered want (dict item) s (dict item)
    unstored :
        (item : Fields) (url : String) (s : St)
        → (want == "url") ≡ true
        → link_in a c (get_or_null "url" item) ≡ some url
        → wants_ours a c ≡ true
        → (rehost_image a c.settings (str url) s).0 ≡ ok none
        → Delivered want (dict item) s (dict item)
    rehosted :
        (item : Fields) (url stored : String) (s : St)
        → (want == "url") ≡ true
        → link_in a c (get_or_null "url" item) ≡ some url
        → wants_ours a c ≡ true
        → (rehost_image a c.settings (str url) s).0 ≡ ok (some stored)
        → IsStored a c.settings (str (strip url)) s stored
        → Delivered want (dict item) s (dict (with_carrier item "url" stored))
    no_upload :
        (item : Fields) (raw : Bytes) (stored : String) (s after : St)
        → (want == "url") ≡ true
        → link_in a c (get_or_null "url" item) ≡ none
        → IsPicture a c item s raw after
        → (upload_as a c.settings "png" raw after).0 ≡ ok stored
        → is_url stored ≡ false
        → Delivered want (dict item) s (dict item)
    uploaded :
        (item : Fields) (raw : Bytes) (stored : String) (s after : St)
        → (want == "url") ≡ true
        → link_in a c (get_or_null "url" item) ≡ none
        → IsPicture a c item s raw after
        → (upload_as a c.settings "png" raw after).0 ≡ ok stored
        → is_url stored ≡ true
        → Delivered want (dict item) s (dict (with_carrier item "url" stored))
    had_base64 :
        (item : Fields) (b64 : String) (s : St)
        → (want == "url") ≡ false
        → given_text (get_or_null "b64_json" item) ≡ some b64
        → Delivered want (dict item) s (dict item)
    encoded :
        (item : Fields) (raw : Bytes) (s after : St)
        → (want == "url") ≡ false
        → given_text (get_or_null "b64_json" item) ≡ none
        → IsPicture a c item s raw after
        → Delivered want (dict item) s (dict (with_carrier item "b64_json" (encode_b64 a raw)))

  module _ (want : String) (item : Fields) where
    upload_item-Delivered :
        (want == "url") ≡ true
        → link_in a c (get_or_null "url" item) ≡ none
        → (s : St) (out : Value) → (upload_item a c item s).0 ≡ ok out
        → Delivered want (dict item) s out
    unfolding upload_item
    upload_item-Delivered link no_link s out h =
        let (found, e, k) = proceed-eq-ok (payload_bytes a c item s).0 _ _ h in
        let read = (payload_bytes a c item s).1 in
        let (raw, e', k') = proceed-eq-ok (or_fail a c found read).0 _ _ k in
        let there = (or_fail a c found read).1 in
        let picture = picture_of a c item s found raw e e' in
        let (stored, e'', k'') =
          proceed-eq-ok (upload_as a c.settings "png" raw there).0 (if_link a c item)
            (upload_as a c.settings "png" raw there).1 k' in
        elim (Bool-cases (is_url stored)) [
          | inl is_link ↦
              let same : dict (with_carrier item "url" stored) ≡ out = cc (rw is_link at k'') in
              rw (← same) (uploaded item raw stored s there link no_link picture e'' is_link)
          | inr other ↦
              let same : dict item ≡ out = cc (rw other at k'') in
              rw (← same) (no_upload item raw stored s there link no_link picture e'' other)
        ]

    rehosted-Delivered :
        (want == "url") ≡ true
        → (url : String) (s t : St) (stored : Option String) (out : Value)
        → link_in a c (get_or_null "url" item) ≡ some url
        → wants_ours a c ≡ true
        → (rehost_image a c.settings (str url) s).0 ≡ ok stored
        → (if_stored a c item stored t).0 ≡ ok out
        → Delivered want (dict item) s out
    rehosted-Delivered link url s t none out has ours e h =
        let same : dict item ≡ out = cc h in rw (← same) (unstored item url s link has ours e)
    rehosted-Delivered link url s t (some stored) out has ours e h =
        let same : dict (with_carrier item "url" stored) ≡ out = cc h in
        rw (← same) (
          rehosted item url stored s link has ours e
            (rehost_image-IsStored a c.settings url s stored e))

    as_url_of-Delivered :
        (want == "url") ≡ true
        → (found : Option String) (s : St) (out : Value)
        → link_in a c (get_or_null "url" item) ≡ found
        → (as_url_of a c found item s).0 ≡ ok out
        → Delivered want (dict item) s out
    unfolding as_url_of
    as_url_of-Delivered link none s out e h = upload_item-Delivered link e s out h
    as_url_of-Delivered link (some url) s out e h = elim (Bool-cases (wants_ours a c)) [
      | inl ours ↦
          let (stored, e', k) =
            proceed-eq-ok (rehost_image a c.settings (str url) s).0 (if_stored a c item)
              (rehost_image a c.settings (str url) s).1 (rw ours at h) in
          rehosted-Delivered link url s (rehost_image a c.settings (str url) s).1 stored out e ours
            e' k
      | inr theirs ↦
          let same : dict item ≡ out = cc (rw theirs at h) in
          rw (← same) (own_link item url s link e theirs)
    ]

    encode_item-Delivered :
        (want == "url") ≡ false
        → given_text (get_or_null "b64_json" item) ≡ none
        → (s : St) (out : Value) → (encode_item a c item s).0 ≡ ok out
        → Delivered want (dict item) s out
    unfolding encode_item
    encode_item-Delivered no_link bare s out h =
        let (found, e, k) = proceed-eq-ok (payload_bytes a c item s).0 _ _ h in
        let read = (payload_bytes a c item s).1 in
        let (raw, e', k') = proceed-eq-ok (or_fail a c found read).0 _ _ k in
        let same : dict (with_carrier item "b64_json" (encode_b64 a raw)) ≡ out = cc k' in
        rw (← same) (encoded item raw s _ no_link bare (picture_of a c item s found raw e e'))

    as_b64_of-Delivered :
        (want == "url") ≡ false
        → (found : Option String) (s : St) (out : Value)
        → given_text (get_or_null "b64_json" item) ≡ found
        → (as_b64_of a c found item s).0 ≡ ok out
        → Delivered want (dict item) s out
    unfolding as_b64_of
    as_b64_of-Delivered no_link none s out e h = encode_item-Delivered no_link e s out h
    as_b64_of-Delivered no_link (some b64) s out e h =
        let same : dict item ≡ out = cc h in rw (← same) (had_base64 item b64 s no_link e)

    object-Delivered :
        (s : St) (out : Value)
        → (convert_one a c want (dict item) s).0 ≡ ok out
        → Delivered want (dict item) s out
    unfolding convert_one as_url as_b64
    object-Delivered s out h = elim (Bool-cases (want == "url")) [
      | inl link ↦
          as_url_of-Delivered link (link_in a c (get_or_null "url" item)) s out refl (rw link at h)
      | inr no_link ↦
          as_b64_of-Delivered no_link (given_text (get_or_null "b64_json" item)) s out refl
            (rw no_link at h)
    ]

  convert_one-Delivered :
      (want : String) (v : Value) (s : St) (out : Value)
      → (convert_one a c want v s).0 ≡ ok out
      → Delivered want v s out
  unfolding convert_one
  convert_one-Delivered want (dict item) s out h = object-Delivered want item s out h
  convert_one-Delivered want v s out h =
      let same : v ≡ out = cc h in rw (← same) (no_object v s refl)

  -- a reply with no list of items
  abbrev pub lists_nothing : Value → Bool
  lists_nothing (list (cons v vs)) = false
  lists_nothing v = true

  -- A reply as it came, and as it is delivered.
  pub data Answered (want : String) (payload : Fields) (s : St) : Value → Type 0 where
    untouched :
        lists_nothing (get_or_null "data" payload) ≡ true → Answered want payload s (dict payload)
    converted :
        (items : Items) (outs : List Value)
        → get_or_null "data" payload ≡ list items
        → Chain (convert_one a c want) (Delivered want) (values items) s outs
        → Answered want payload s (dict (put "data" (list (from_values outs)) payload))

  shape_of-Answered :
      (want : String) (payload : Fields) (found : Value) (s : St) (out : Value)
      → get_or_null "data" payload ≡ found
      → (shape_of a c payload want found s).0 ≡ ok out
      → Answered want payload s out
  unfolding shape_of
  shape_of-Answered want payload (list (cons first rest)) s out e h =
      let items = values (cons first rest) in
      let run = fan_out c.settings.fanout_concurrency (convert_one a c want) items s in
      let (outs, e', k) = proceed-eq-ok run.0 (put_items a c payload) run.1 h in
      let same : dict (put "data" (list (from_values outs)) payload) ≡ out = cc k in
      rw (← same) (
        converted (cons first rest) outs e (
          fan_out-Chain (convert_one a c want) (Delivered want) (convert_one-Delivered want)
            c.settings.fanout_concurrency items s outs e'))
  shape_of-Answered want payload (list nil) s out e h =
      let same : dict payload ≡ out = cc h in rw (← same) (untouched (rw e refl))
  shape_of-Answered want payload found s out e h =
      let same : dict payload ≡ out = cc h in rw (← same) (untouched (rw e refl))

  -- The response phase of a request whose client asked for a format keeps the items of the reply in
  -- number and order, and all else of the reply. For links, an item with an http or https link keeps it,
  -- unless the channel asks for links of ours and rehosting that link gives one, which then replaces it;
  -- another item is given the link under which its picture is uploaded, if that is an http or https one,
  -- and stays as it is if not. For base64, an item stays as it is if it has some, and is given that of its
  -- picture otherwise. What is no object stays as it is. Each item's picture is read, and stored, in the
  -- state that the items before it leave.
  pub transform-Answered :
      (payload : Fields) (want : String) (s : ScriptState St) (out : Value)
      → lookup c.request_id s.parked ≡ some want
      → (transform a c (dict payload) "response" s).0 ≡ ok out
      → Answered want payload s.assets out
  unfolding transform respond answer shape
  transform-Answered payload want s out asked h =
      shape_of-Answered want payload (get_or_null "data" payload) s.assets out refl (rw asked at h)
