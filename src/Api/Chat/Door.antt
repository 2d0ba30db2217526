-- ===== src/Api/Chat/Door.antt =====
-- What the chat door hands to the pipeline.
use image_adapter.Base.{
  String, false, none, some, List, [], ◌∷◌, ◌++◌, elem, ◌≡◌, refl, sym, ap, ◌∙◌, arith,
  Option-cases, inl, inr,
}
use image_adapter.Errors.{ok-injective, ok, err, >>=-inversion, invalid_request}
use image_adapter.Value.{Value, str, Items, Fields, get, get_or_null, put}
use image_adapter.Value.DictLaws.{get-put}
use image_adapter.Api.Images.{validate_images_body}
use image_adapter.Api.Images.Canonical.{IsCanonical}
use image_adapter.Api.Images.Validation.{
  validate_images_body-IsCanonical, validate_images_body-none,
}
use image_adapter.Api.Parts.{Content, attach_images, image_of}
use image_adapter.Api.Chat.{
  canonical_request, named, messages_of, messages_to_canonical, chat_prepare, with_instructions,
}
use image_adapter.Api.Chat.Turns.{
  Turn, last_user, request_of, read_turns, instruction_texts, instruction_images,
  messages_to_canonical-request_of,
}

abbrev pub chat_keys : List String
chat_keys = "model" ∷ "prompt" ∷ "image" ∷ []

named-none : (model : Value) (k : String) → elem k chat_keys ≡ false → get k (named model) ≡ none
unfolding get put
named-none model k h = ground (arith, h)

canonical_request-none :
    (model : Value) (prompt : String) (refs : List String) (k : String)
    → elem k chat_keys ≡ false
    → get k (canonical_request model prompt refs) ≡ none
unfolding canonical_request attach_images
canonical_request-none model prompt refs k h =
    let base = put "prompt" (str prompt) (named model) in
    ground (
      arith,
      h,
      named-none model k h,
      get-put "prompt" k (str prompt) (named model),
      get-put "image" k (image_of refs) base,
    )

canonical_request_prompt :
    (model : Value) (prompt : String) (refs : List String)
    → get "prompt" (canonical_request model prompt refs) ≡ some (str prompt)
unfolding canonical_request attach_images
canonical_request_prompt model prompt refs =
    let base = put "prompt" (str prompt) (named model) in
    ground (
      arith,
      get-put "prompt" "prompt" (str prompt) (named model),
      get-put "image" "prompt" (image_of refs) base,
    )

-- the turns behind a chat that was taken
record Taken (show : Value → String) (body out : Fields) : Type 0 where
  messages : Items
  turns : List Turn
  asked : Content
  listed : messages_of (get_or_null "messages" body) ≡ ok messages
  were_read : read_turns show 0 messages ≡ ok turns
  is_last : last_user turns ≡ some asked
  request :
      out
      ≡ canonical_request
          (get_or_null "model" body)
          (with_instructions (instruction_texts turns) asked.text)
          (instruction_images turns ++ asked.refs)

request_of-none :
    (model : Value) (turns : List Turn)
    → last_user turns ≡ none
    → request_of model turns ≡ err (invalid_request "messages")
request_of-none model turns nobody = rw (nobody, request_of) refl

request_of-some :
    (model : Value) (turns : List Turn) (c : Content)
    → last_user turns ≡ some c
    → request_of model turns
      ≡ ok (
          canonical_request model
            (with_instructions (instruction_texts turns) c.text)
            (instruction_images turns ++ c.refs))
request_of-some model turns c said = rw (said, request_of) refl

taken :
    (show : Value → String) (body out : Fields)
    → messages_to_canonical show body ≡ ok out
    → Taken show body out
taken show body out h =
    >>=-inversion (messages_of (get_or_null "messages" body)) _
      (sym (messages_to_canonical-request_of show body) ∙ h)
      λ messages listed h1.
        >>=-inversion (read_turns show 0 messages) (request_of (get_or_null "model" body)) h1
          λ turns were_read h2. elim (Option-cases (last_user turns)) [
            | inl nobody ↦ absurd (cc (request_of-none (get_or_null "model" body) turns nobody, h2))
            | inr (asked, is_last) ↦ record {
              messages = messages;
              turns = turns;
              asked = asked;
              listed = listed;
              were_read = were_read;
              is_last = is_last;
              request =
                  ok-injective
                    (sym h2 ∙ request_of-some (get_or_null "model" body) turns asked is_last);
            }
          ]

-- The body that the chat door hands on is canonical, and a key other than `model`, `prompt` and
-- `image` is not in it: no `messages`, no `stream`, no `response_format` of the chat reaches the script.
chat_prepare-IsCanonical :
    (show : Value → String) (body out : Fields)
    → chat_prepare show body ≡ ok out
    → (k : String) → elem k chat_keys ≡ false
    → IsCanonical show out × (get k out ≡ none)
unfolding chat_prepare
chat_prepare-IsCanonical show body out h k other =
    >>=-inversion (messages_to_canonical show body) (validate_images_body show) h
      λ canonical folded checked.
        let t = taken show body canonical folded in
        (
          (validate_images_body-IsCanonical show canonical out checked "prompt" refl).0,
          validate_images_body-none show canonical out checked k (
              ap (get k) t.request ∙ canonical_request-none (get_or_null "model" body) _ _ k other),
        )
