-- ===== src/Api/Reply.antt =====
-- adapter/api/frontdoor.py: a canonical reply in the shape of the client's door. `b64decode` decodes
-- base64 or fails; `fresh n` is the n-th `uuid.uuid4().hex[:24]`; `now` is `int(time.time())`.
pub mod Wrapping
pub mod Carrying
pub mod Numbering
use image_adapter.Base.{
  ℕ, zero, suc, ◌+◌, ◌-◌, eqb, String, Bool, true, false, not, ◌&&◌, ◌||◌, Option, none, some, List,
  [], ◌∷◌, ◌++◌, elem, if◌then◌else◌, is_some,
}
use Prim.Native.Nat.{◌%◌}
use image_adapter.Text.{blank, append, take, text_length}
use image_adapter.Value.{
  Value, null, int, pos, str, list, dict, Items, nil, cons, Fields, end, field, Bytes, get,
  get_or_null, set_default, truthy, is_null,
}

-- raw.startswith(magic)
abbrev pub bytes_start : Bytes → Bytes → Bool
bytes_start raw [] = true
bytes_start [] (m ∷ magic) = false
bytes_start (b ∷ raw) (m ∷ magic) = eqb b m && bytes_start raw magic

-- raw[8:]
abbrev pub drop_bytes : ℕ → Bytes → Bytes
drop_bytes zero raw = raw
drop_bytes (suc n) [] = []
drop_bytes (suc n) (b ∷ raw) = drop_bytes n raw

abbrev pub magic : List (Bytes × String)
magic =
    (0x89 ∷ 0x50 ∷ 0x4e ∷ 0x47 ∷ 0x0d ∷ 0x0a ∷ 0x1a ∷ 0x0a ∷ [], "image/png")
    ∷ (0xff ∷ 0xd8 ∷ 0xff ∷ [], "image/jpeg")
    ∷ (0x47 ∷ 0x49 ∷ 0x46 ∷ 0x38 ∷ 0x37 ∷ 0x61 ∷ [], "image/gif")
    ∷ (0x47 ∷ 0x49 ∷ 0x46 ∷ 0x38 ∷ 0x39 ∷ 0x61 ∷ [], "image/gif")
    ∷ []

abbrev pub mime_in : Bytes → List (Bytes × String) → String → String
mime_in raw [] other = other
mime_in raw ((number, mime) ∷ table) other =
    if bytes_start raw number then mime else mime_in raw table other

abbrev pub webp_or_png : Bytes → String
webp_or_png raw =
    if bytes_start raw (0x52 ∷ 0x49 ∷ 0x46 ∷ 0x46 ∷ [])
      && bytes_start (drop_bytes 8 raw) (0x57 ∷ 0x45 ∷ 0x42 ∷ 0x50 ∷ [])
    then "image/webp"
    else "image/png"

-- "=" * (-n % 4)
abbrev pub padding : ℕ → String
padding n = take ((4 - n % 4) % 4) "==="

-- _mime_of
unfoldable pub mime_of : (String → Option Bytes) → String → String
unfolding take text_length
mime_of b64decode blob =
    let head = take 32 blob in
    elim (b64decode (append head (padding (text_length head)))) [
      | none ↦ "image/png"
      | some raw ↦ mime_in raw magic (webp_or_png raw)
    ]

abbrev pub filled_text : Value → Option String
filled_text (str s) = if blank s then none else some s
filled_text v = none

abbrev pub url_part : String → Value
url_part url =
    dict (field "type" (str "image_url") (field "image_url" (dict (field "url" (str url) end)) end))

-- _chat_part
unfoldable pub chat_part : (String → Option Bytes) → Value → Option Value
unfolding get mime_of
chat_part b64decode (dict item) = elim (filled_text (get_or_null "url" item)) [
  | some url ↦ some (url_part url)
  | none ↦ elim (filled_text (get_or_null "b64_json" item)) [
    | some blob ↦
        some (url_part (append "data:" (append (mime_of b64decode blob) (append ";base64," blob))))
    | none ↦ none
  ]
]
chat_part b64decode item = none

abbrev pub keep : Option Value → Items → Items
keep none rest = rest
keep (some part) rest = cons part rest

unfoldable pub chat_parts : (String → Option Bytes) → Items → Items
unfolding chat_part
chat_parts b64decode nil = nil
chat_parts b64decode (cons item items) =
    keep (chat_part b64decode item) (chat_parts b64decode items)

-- _image_items of a dict
abbrev pub listed : Value → Option Items
listed (list items) = some items
listed v = none

-- _carry_over
unfoldable pub carry_over : List String → Fields → Fields → Fields
unfolding set_default
carry_over handled end out = out
carry_over handled (field key value payload) out =
    carry_over handled payload
      (if not (elem key handled) && not (is_null value) then set_default key value out else out)

-- `v or d`
abbrev pub or_value : Value → Value → Value
or_value v d = if truthy v then v else d

abbrev pub handled_chat : List String
handled_chat = "created" ∷ "data" ∷ []

abbrev pub chat_message : Items → Value
chat_message parts = dict (
    field "index" (int (pos 0)) (
      field "message" (dict (field "role" (str "assistant") (field "content" (list parts) end)))
        (field "finish_reason" (str "stop") end)))

abbrev pub chat_completion : String → Value → Value → Items → Fields
chat_completion id created model parts = field "id" (str (append "chatcmpl-" id)) (
    field "object" (str "chat.completion") (
      field "created" created
        (field "model" model (field "choices" (list (cons (chat_message parts) nil)) end))))

abbrev pub wrap_chat :
    (String → Option Bytes) → (ℕ → String) → Value → Value → Fields → Option Items → Value
wrap_chat b64decode fresh now model payload none = dict payload
wrap_chat b64decode fresh now model payload (some items) = dict (
    carry_over handled_chat payload (
      chat_completion (fresh 0) (or_value (get_or_null "created" payload) now)
        (or_value model (str "")) (chat_parts b64decode items)))

-- canonical_to_chat
unfoldable pub canonical_to_chat :
    (String → Option Bytes) → (ℕ → String) → Value → Value → Value → Value
unfolding get carry_over chat_parts truthy
canonical_to_chat b64decode fresh now model (dict payload) =
    if is_some (get "choices" payload)
    then dict payload
    else wrap_chat b64decode fresh now model payload (listed (get_or_null "data" payload))
canonical_to_chat b64decode fresh now model payload = payload

-- the result of one item: its base64, or else its URL
unfoldable pub call_result : Value → Option String
unfolding get truthy
call_result (dict item) =
    filled_text (or_value (get_or_null "b64_json" item) (get_or_null "url" item))
call_result item = none

abbrev pub image_call : String → String → Value
image_call id result = dict (
    field "type" (str "image_generation_call") (
      field "id" (str (append "ig_" id))
        (field "status" (str "completed") (field "result" (str result) end))))

-- the calls, and how many ids were taken
unfoldable pub image_calls : (ℕ → String) → ℕ → Items → Items × ℕ
unfolding call_result
image_calls fresh n nil = (nil, n)
image_calls fresh n (cons item items) = elim (call_result item) [
  | none ↦ image_calls fresh n items
  | some result ↦
      let (calls, last) = image_calls fresh (suc n) items in
      (cons (image_call (fresh n) result) calls, last)
]

abbrev pub handled_response : List String
handled_response = "created" ∷ "data" ∷ "id" ∷ "object" ∷ "status" ∷ "output" ∷ []

abbrev pub response : String → Value → Value → Items → Fields
response id created model calls = field "id" (str (append "resp-" id)) (
    field "object" (str "response") (
      field "status" (str "completed")
        (field "created" created (field "model" model (field "output" (list calls) end)))))

abbrev pub wrap_response : (ℕ → String) → Value → Value → Fields → Option Items → Value
wrap_response fresh now model payload none = dict payload
wrap_response fresh now model payload (some items) =
    let (calls, last) = image_calls fresh 0 items in
    dict (
      carry_over handled_response payload (
        response (fresh last) (or_value (get_or_null "created" payload) now)
          (or_value model (str "")) calls))

-- canonical_to_response
unfoldable pub canonical_to_response : (ℕ → String) → Value → Value → Value → Value
unfolding get carry_over image_calls truthy
canonical_to_response fresh now model (dict payload) =
    if is_some (get "output" payload)
    then dict payload
    else wrap_response fresh now model payload (listed (get_or_null "data" payload))
canonical_to_response fresh now model payload = payload
