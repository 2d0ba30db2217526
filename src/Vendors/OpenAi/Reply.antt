-- ===== src/Vendors/OpenAi/Reply.antt =====
-- script_store/openai/images@v1.py, the response phase: the reply in the shape that the client asked for.
use image_adapter.Base.{
  String, Bool, true, false, Option, none, some, List, [], ◌∷◌, elem, if◌then◌else◌, ◌==◌,
}
use image_adapter.Text.{blank}
use image_adapter.Errors.{AdapterError}
use image_adapter.Value.{
  Value, bool, str, list, dict, Items, nil, cons, Fields, end, field, Bytes, get, get_or_null, put,
}
use image_adapter.Engine.{Exec, ◌>>=◌, pure, raise, lift}
use image_adapter.Pictures.Codec.{Assets, is_url, is_data_uri, encode_b64, decode_b64}
use image_adapter.Pictures.Fetch.{download_image}
use image_adapter.Pictures.Shapes.{upload_as, rehost_image}
use image_adapter.Vendors.Context.{ScriptContext, fault, fan_out, values}
use image_adapter.Vendors.OpenAi.Asking.{carriers}

-- {k: v for k, v in item.items() if k not in CARRIERS}
unfoldable pub without_carriers : Fields → Fields
without_carriers end = end
without_carriers (field k v d) =
    let rest = without_carriers d in if elem k carriers then rest else field k v rest

-- _with_carrier
unfoldable pub with_carrier : Fields → String → String → Fields
unfolding put without_carriers
with_carrier item key value = put key (str value) (without_carriers item)

-- a text that is not blank
abbrev pub given_text : Value → Option String
given_text (str s) = if blank s then none else some s
given_text v = none

abbrev pub no_picture : AdapterError
no_picture = fault 502 "upstream_error"

abbrev pub from_values : List Value → Items
from_values [] = nil
from_values (v ∷ vs) = cons v (from_values vs)

module _ {St : Type 0} (a : Assets St) (c : ScriptContext) where
  -- the picture behind the `url` of an item
  unfoldable pub url_bytes : Option String → Exec St (Option Bytes)
  unfolding is_url is_data_uri decode_b64 download_image
  url_bytes none = pure none
  url_bytes (some url) =
      if is_data_uri url
      then (lift (decode_b64 a url) >>= λ raw. pure (some raw))
      else if is_url url
      then (download_image a c.settings (str url) >>= λ raw. pure (some raw))
      else pure none

  -- _payload_bytes
  unfoldable pub payload_bytes : Fields → Exec St (Option Bytes)
  unfolding get url_bytes
  payload_bytes item = elim (given_text (get_or_null "b64_json" item)) [
    | some b64 ↦ lift (decode_b64 a b64) >>= λ raw. pure (some raw)
    | none ↦ url_bytes (given_text (get_or_null "url" item))
  ]

  abbrev pub or_fail : Option Bytes → Exec St Bytes
  or_fail none = raise no_picture
  or_fail (some raw) = pure raw

  -- a link goes into the item, anything else leaves it alone
  abbrev pub if_link : Fields → String → Exec St Value
  if_link item stored = pure (dict (if is_url stored then with_carrier item "url" stored else item))

  abbrev pub if_stored : Fields → Option String → Exec St Value
  if_stored item none = pure (dict item)
  if_stored item (some stored) = pure (dict (with_carrier item "url" stored))

  unfoldable pub upload_item : Fields → Exec St Value
  unfolding payload_bytes upload_as is_url with_carrier
  upload_item item = do
    found ← payload_bytes item
    raw ← or_fail found
    stored ← upload_as a c.settings "png" raw
    if_link item stored

  -- isinstance(url, str) and ctx.is_url(url)
  abbrev pub link_in : Value → Option String
  link_in (str url) = if is_url url then some url else none
  link_in v = none

  -- ctx.options.get("rehost_url") is True
  abbrev pub is_true : Value → Bool
  is_true (bool true) = true
  is_true v = false

  abbrev pub wants_ours : Bool
  wants_ours = is_true (get_or_null "rehost_url" c.options)

  unfoldable pub as_url_of : Option String → Fields → Exec St Value
  unfolding rehost_image upload_item get with_carrier
  as_url_of none item = upload_item item
  as_url_of (some url) item =
      if wants_ours
      then (rehost_image a c.settings (str url) >>= if_stored item)
      else pure (dict item)

  -- _as_url
  unfoldable pub as_url : Fields → Exec St Value
  unfolding get is_url as_url_of
  as_url item = as_url_of (link_in (get_or_null "url" item)) item

  unfoldable pub encode_item : Fields → Exec St Value
  unfolding payload_bytes with_carrier
  encode_item item = do
    found ← payload_bytes item
    raw ← or_fail found
    pure (dict (with_carrier item "b64_json" (encode_b64 a raw)))

  unfoldable pub as_b64_of : Option String → Fields → Exec St Value
  unfolding encode_item
  as_b64_of (some b64) item = pure (dict item)
  as_b64_of none item = encode_item item

  -- _as_b64
  unfoldable pub as_b64 : Fields → Exec St Value
  unfolding get as_b64_of
  as_b64 item = as_b64_of (given_text (get_or_null "b64_json" item)) item

  -- _convert_one
  unfoldable pub convert_one : String → Value → Exec St Value
  unfolding as_url as_b64
  convert_one want (dict item) = if want == "url" then as_url item else as_b64 item
  convert_one want item = pure item

  -- {**payload, "data": items}
  unfoldable pub put_items : Fields → List Value → Exec St Value
  unfolding put
  put_items payload items = pure (dict (put "data" (list (from_values items)) payload))

  unfoldable pub shape_of : Fields → String → Value → Exec St Value
  unfolding fan_out convert_one put_items
  shape_of payload want (list (cons first rest)) =
      fan_out c.settings.fanout_concurrency (convert_one want) (values (cons first rest))
      >>= put_items payload
  shape_of payload want v = pure (dict payload)

  -- _shape
  unfoldable pub shape : Fields → String → Exec St Value
  unfolding get shape_of
  shape payload want = shape_of payload want (get_or_null "data" payload)

  -- `_response` behind the pop
  unfoldable pub answer : Option String → Value → Exec St Value
  unfolding shape
  answer none reply = pure reply
  answer (some want) (dict payload) = shape payload want
  answer (some want) reply = pure reply
