-- ===== src/Vendors/Hunyuan.antt =====
-- script_store/tencent_hunyuan/images@v1.py: one message to a chat-shaped upstream that answers at once.
pub mod Presented
use image_adapter.Base.{
  ℕ, String, Bool, true, false, not, ◌&&◌, ◌||◌, Option, none, some, List, [], ◌∷◌, ◌++◌, ◌==◌,
  remove, lookup, or_else, if◌then◌else◌,
}
use image_adapter.Text.{append, strip, blank}
use image_adapter.Errors.{AdapterError, Result, ok, err, crash}
use image_adapter.Value.{
  Value, null, bool, int, pos, str, list, dict, Items, nil, cons, Fields, end, field, Bytes, get,
  get_or_null, put, pop, truthy, is_null,
}
use image_adapter.Transport.{text_of}
use image_adapter.Engine.{Exec, ◌>>=◌, pure, raise}
use image_adapter.Moderation.{matched_moderation, content_refused}
use image_adapter.Pictures.Codec.{Assets, sniff, is_url, is_data_uri, encode_b64, decode_b64}
use image_adapter.Pictures.Fetch.{download_image}
use image_adapter.Pictures.Shapes.{rehost_image}
use image_adapter.Vendors.Context.{
  ScriptContext, ScriptState, fault, on_assets, fan_out, values, park, unpark,
}
use image_adapter.Vendors.OpenAi.Asking.{requested_format}
use image_adapter.Vendors.OpenAi.Reply.{from_values, wants_ours}

abbrev pub default_model : String
default_model = "hy-image-v3.5-preview"

abbrev pub vendor_fields : List String
vendor_fields =
    "seed" ∷ "session" ∷ "footnote" ∷ "generate_max_pixels" ∷ "resize_max_pixels"
    ∷ "use_search_tool" ∷ []

-- the picture of a final frame, with its width and height
pub record Picture : Type 0 where
  pub url : Value
  pub width : Value
  pub height : Value

abbrev pub no_picture : Picture
no_picture = record { url = null; width = null; height = null }

abbrev pub image_in_delta : Value → Picture
image_in_delta (dict delta) = elim (get_or_null "image" delta) [
  | dict image ↦ record {
    url = get_or_null "url" image;
    width = get_or_null "width" image;
    height = get_or_null "height" image;
  }
  | _ ↦ no_picture
]
image_in_delta v = no_picture

-- _delta_image
unfoldable pub delta_image : Fields → Picture
unfolding get
delta_image payload = elim (get_or_null "choices" payload) [
  | list (cons (dict first) rest) ↦ image_in_delta (get_or_null "delta" first)
  | _ ↦ no_picture
]

-- a width or a height that is a number
abbrev pub put_number : String → Value → Fields → Fields
put_number key (int n) item = put key (int n) item
put_number key v item = item

-- {"url": url} with what is known of its size
unfoldable pub item_of : String → Picture → Fields
unfolding put
item_of url p =
    put_number "height" p.height (put_number "width" p.width (field "url" (str url) end))

abbrev pub usage_of : Value → Option Value
usage_of (dict usage) =
    let total = get_or_null "total_tokens" usage in if is_null total then none else some total
usage_of v = none

-- the canonical reply
unfoldable pub reply_of : Fields → Fields → Fields
unfolding get
reply_of payload item =
    field "created" (elim (get "created" payload) [ none ↦ int (pos 0) | some v ↦ v ])
      (field "data" (list (cons (dict item) nil)) (elim (usage_of (get_or_null "usage" payload)) [
        | none ↦ end
        | some total ↦ field "usage" (dict (field "total_tokens" total end)) end
      ]))

abbrev pub is_error : Value → Bool
is_error (dict e) = true
is_error v = false

abbrev pub upstream_fault : AdapterError
upstream_fault = fault 502 "upstream_error"

module _ {St : Type 0} (a : Assets St) (c : ScriptContext) (decode : Bytes → String)
    (shared : List String) where
  -- _wire_ref; a reference that is no text has no `strip`
  unfoldable pub wire_ref : Value → Result String
  unfolding strip is_url is_data_uri decode_b64
  wire_ref (str ref) =
      let stripped = strip ref in
      if is_url stripped || is_data_uri stripped
      then ok stripped
      else elim (decode_b64 a stripped) [
        | ok raw ↦ ok (append "data:" (append (sniff raw) (append ";base64," stripped)))
        | err e ↦ ok stripped
        | crash ↦ ok stripped
      ]
  wire_ref ref = crash

  -- _content_item
  unfoldable pub content_item : Value → Exec (ScriptState St) Value
  unfolding wire_ref
  content_item ref s = elim (wire_ref ref) [
    | ok url ↦ (
      ok (
          dict (
            field "type" (str "image_url")
              (field "image_url" (dict (field "url" (str url) end)) end))),
      s,
    )
    | err e ↦ (err e, s)
    | crash ↦ (crash, s)
  ]

  abbrev pub given_refs : Value → List Value
  given_refs (list refs) = values refs
  given_refs image = if truthy image then image ∷ [] else []

  -- str(payload.get("prompt") or "").strip()
  unfoldable pub prompt_of : Fields → String
  unfolding get truthy strip
  prompt_of payload =
      let prompt = get_or_null "prompt" payload in
      if truthy prompt then strip (text_of c.show prompt) else ""

  abbrev pub text_item : String → List Value
  text_item prompt =
      if blank prompt
      then []
      else dict (field "type" (str "text") (field "text" (str prompt) end)) ∷ []

  -- ctx.mapped_model or ctx.options.get("model", DEFAULT_MODEL)
  unfoldable pub model_of : Value
  unfolding get
  model_of =
      let optional : Value = elim (get "model" c.options) [
        | none ↦ str default_model
        | some v ↦ v
      ] in
      elim c.mapped_model [ none ↦ optional | some m ↦ if blank m then optional else str m ]

  abbrev pub put_size : Value → Fields → Fields
  put_size (str size) body = if blank (strip size) then body else put "size" (str (strip size)) body
  put_size size body = body

  -- payload.get(key, ctx.options.get(key))
  abbrev pub vendor_value : Fields → String → Value
  vendor_value payload key = elim (get key payload) [
    | none ↦ get_or_null key c.options
    | some v ↦ v
  ]

  unfoldable pub put_fields : Fields → List String → Fields → Fields
  unfolding get put
  put_fields payload [] body = body
  put_fields payload (key ∷ keys) body =
      let v = vendor_value payload key in
      put_fields payload keys (if is_null v then body else put key v body)

  unfoldable pub body_of : Fields → List Value → Fields
  unfolding model_of put_fields prompt_of
  body_of payload parts =
      let content = from_values (parts ++ text_item (prompt_of payload)) in
      let message = dict (field "role" (str "user") (field "content" (list content) end)) in
      put_fields payload vendor_fields (
        put_size (get_or_null "size" payload)
          (field "model" model_of (field "messages" (list (cons message nil)) end)))

  -- the request phase
  unfoldable pub ask : Fields → Exec (ScriptState St) Value
  unfolding park requested_format fan_out content_item body_of
  ask payload s =
      (fan_out c.settings.fanout_concurrency content_item (given_refs (get_or_null "image" payload))
          >>= λ parts. pure (dict (body_of payload parts)))
        (park a c (requested_format payload) s)

  -- the item with the base64 of its picture
  abbrev pub with_b64 : Fields → Bytes → Exec St Fields
  with_b64 item raw = pure (put "b64_json" (str (encode_b64 a raw)) (pop "url" item))

  abbrev pub with_link : Fields → Option String → Exec St Fields
  with_link item none = pure item
  with_link item (some stored) = pure (put "url" (str stored) item)

  -- the item in the shape that was asked for
  unfoldable pub shaped_item : Option String → String → Fields → Exec St Fields
  unfolding download_image rehost_image put pop
  shaped_item want url item =
      if or_else want "" == "b64_json"
      then (download_image a c.settings (str url) >>= with_b64 item)
      else if wants_ours a c && is_url url
      then (rehost_image a c.settings (str url) >>= with_link item)
      else pure item

  abbrev pub present : Fields → Fields → Exec St Value
  present payload item = pure (dict (reply_of payload item))

  -- what follows the check of the picture
  unfoldable pub deliver : Fields → Picture → Value → Exec (ScriptState St) Value
  unfolding item_of shaped_item reply_of lookup
  deliver payload p (str url) s =
      if blank url
      then (err upstream_fault, unpark a c s)
      else on_assets
          (shaped_item (lookup c.request_id s.parked) url (item_of url p) >>= present payload)
          (unpark a c s)
  deliver payload p v s = (err upstream_fault, unpark a c s)

  unfoldable pub respond_to : Fields → Exec (ScriptState St) Value
  unfolding get delta_image deliver
  respond_to payload s =
      if is_error (get_or_null "error" payload)
      then (err upstream_fault, unpark a c s)
      else deliver payload (delta_image payload) (delta_image payload).url s

  -- _response
  unfoldable pub respond : Value → Exec (ScriptState St) Value
  unfolding matched_moderation respond_to
  respond (dict payload) s =
      if blank (matched_moderation decode shared [] [] (dict payload))
      then respond_to payload s
      else (err content_refused, s)
  respond payload s = (ok payload, s)

  unfoldable pub transform : Value → String → Exec (ScriptState St) Value
  unfolding ask respond
  transform (dict payload) phase s =
      if phase == "request" then ask payload s else respond (dict payload) s
  transform payload phase s = if phase == "request" then (crash, s) else respond payload s
