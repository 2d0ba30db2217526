-- ===== src/Api/Reply/Wrapping.antt =====
-- What the client finds in a wrapped reply.
use image_adapter.Base.{
  ℕ, String, Option, none, some, List, [], ◌∷◌, if◌then◌else◌, ◌==◌, ◌∙◌, ◌≡◌, refl, ap, arith,
}
use image_adapter.Text.{append}
use image_adapter.Value.{Value, str, list, dict, Items, nil, cons, Fields, Bytes, get, get_or_null}
use image_adapter.Api.Reply.{
  mime_of, filled_text, url_part, chat_part, chat_parts, carry_over, or_value, handled_chat,
  chat_message, chat_completion, canonical_to_chat,
}
use image_adapter.Api.Reply.Carrying.{carried, carry_over-carried}

-- The picture of an item as a chat client gets it: its URL, or else a data URI of its base64.
abbrev pub picture : (String → Option Bytes) → Value → Option String
picture b64decode (dict item) = elim (filled_text (get_or_null "url" item)) [
  | some url ↦ some url
  | none ↦ elim (filled_text (get_or_null "b64_json" item)) [
    | some blob ↦ some (append "data:" (append (mime_of b64decode blob) (append ";base64," blob)))
    | none ↦ none
  ]
]
picture b64decode item = none

-- what `f` finds, in order
abbrev pub found {ℓ} : {A : Type ℓ} → (Value → Option A) → Items → List A
found f nil = []
found f (cons item items) = elim (f item) [ none ↦ found f items | some a ↦ a ∷ found f items ]

abbrev pub url_parts : List String → Items
url_parts [] = nil
url_parts (url ∷ urls) = cons (url_part url) (url_parts urls)

chat_part-picture :
    (b64decode : String → Option Bytes) (item : Value)
    → chat_part b64decode item
      ≡ elim (picture b64decode item) [ none ↦ none | some url ↦ some (url_part url) ]
unfolding chat_part
chat_part-picture b64decode (dict item) = ground arith
chat_part-picture b64decode item = refl

chat_parts-found :
    (b64decode : String → Option Bytes) (items : Items)
    → chat_parts b64decode items ≡ url_parts (found (picture b64decode) items)
unfolding chat_parts
chat_parts-found b64decode nil = refl
chat_parts-found b64decode (cons item items) =
    ground (arith, chat_part-picture b64decode item, chat_parts-found b64decode items)

-- what a chat completion has of its own under a key
abbrev pub chat_key : String → Value → Value → List String → String → Option Value
chat_key id created model urls k =
    if "id" == k
    then some (str (append "chatcmpl-" id))
    else if "object" == k
    then some (str "chat.completion")
    else if "created" == k
    then some created
    else if "model" == k
    then some model
    else if "choices" == k
    then some (list (cons (chat_message (url_parts urls)) nil))
    else none

get-chat_completion :
    (id : String) (created model : Value) (urls : List String) (k : String)
    → get k (chat_completion id created model (url_parts urls)) ≡ chat_key id created model urls k
unfolding get
get-chat_completion id created model urls k = ground arith

-- A reply with a list of images and no `choices` of its own becomes a chat completion, whose keys are
-- these: `choices`, the content of which is the pictures of its items, in order, the URL of an item, or
-- else a data URI of its base64, and nothing for an item that has neither; `id`, `object`, `model` and
-- `created`, which is the reply's if that is truthy; and every other key of the reply with its value
-- that is not null, but for `data`.
pub canonical_to_chat-found :
    (b64decode : String → Option Bytes) (fresh : ℕ → String) (now model : Value) (payload : Fields)
    (items : Items)
    → get "choices" payload ≡ none
    → get "data" payload ≡ some (list items)
    → (k : String)
    → (out : Fields) × (canonical_to_chat b64decode fresh now model (dict payload) ≡ dict out)
      × (get k out
          ≡ carried handled_chat payload k (
              chat_key
                (fresh 0)
                (or_value (get_or_null "created" payload) now)
                (or_value model (str ""))
                (found (picture b64decode) items)
                k))
unfolding canonical_to_chat get
canonical_to_chat-found b64decode fresh now model payload items bare there k =
    let created = or_value (get_or_null "created" payload) now in
    let asked = or_value model (str "") in
    let completion = chat_completion (fresh 0) created asked (chat_parts b64decode items) in
    let at : get_or_null "data" payload ≡ list items = ground (arith, there) in
    (
      carry_over handled_chat payload completion,
      rw bare (rw at refl),
      carry_over-carried handled_chat payload completion k
          ∙ ap
              (λ parts.
                carried handled_chat payload k
                  (get k (chat_completion (fresh 0) created asked parts)))
              (chat_parts-found b64decode items)
          ∙ ap (carried handled_chat payload k)
              (get-chat_completion (fresh 0) created asked (found (picture b64decode) items) k),
    )
