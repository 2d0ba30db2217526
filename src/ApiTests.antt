-- ===== src/ApiTests.antt =====
-- The theorems on the client's side, at concrete bodies and replies.
use image_adapter.Base.{ℕ, List, [], ◌∷◌, String, Option, none, some, ◌≡◌, refl}
use image_adapter.Errors.{ok, ◌>>=◌}
use image_adapter.Value.{
  Value, null, int, pos, str, list, dict, Items, nil, cons, Fields, end, field, get, get_or_null,
  Bytes,
}
use image_adapter.Api.Images.{validate_images_body}
use image_adapter.Api.Images.Canonical.{IsCanonical}
use image_adapter.Api.Images.Validation.{validate_images_body-IsCanonical}
use image_adapter.Api.Chat.{messages_of, messages_to_canonical, chat_prepare}
use image_adapter.Api.Chat.Turns.{read_turns, request_of, messages_to_canonical-request_of}
use image_adapter.Api.Reply.{canonical_to_chat}
use image_adapter.Api.Reply.Wrapping.{canonical_to_chat-found}
use image_adapter.Api.Reply.Carrying.{filled}
use image_adapter.Api.Responses.{input_to_canonical, input_request}
use image_adapter.Api.Responses.Groups.{input_items, instruction_texts, instruction_images, asked}
use image_adapter.Api.Responses.LastTurn.{input_to_canonical-asked}
use image_adapter.Value.{ℤ}
use image_adapter.Api.Form.{upload, text, FormField, normalise_edits_form}
use image_adapter.Api.Form.References.{IsFormBody, normalise_edits_form-IsFormBody}
use image_adapter.Api.Form.Given.{as_image, as_mask, last_references}

abbrev show : Value → String
show v = "0"

abbrev body : Fields
body = field "prompt" (str "a cat") (field "n" (int (pos 0)) end)

abbrev fixed : Fields
fixed = field "prompt" (str "a cat") (field "n" (int (pos 1)) end)

validate_images_body_test : validate_images_body show body ≡ ok fixed
unfolding validate_images_body
validate_images_body_test = refl

validate_images_body-IsCanonical_example :
    IsCanonical show fixed × (get "prompt" fixed ≡ get "prompt" body)
validate_images_body-IsCanonical_example =
    validate_images_body-IsCanonical show body fixed validate_images_body_test "prompt" refl

abbrev message : String → Value → Value
message role content = dict (field "role" (str role) (field "content" content end))

abbrev image_part : String → Value
image_part url = dict (field "type" (str "image_url") (field "image_url" (str url) end))

-- an instruction, an earlier turn with its answer, and the turn that counts
abbrev chat : Fields
chat = field "stream" (int (pos 1)) (
    field "messages"
      (list (
        cons (message "system" (str "in ink")) (
          cons (message "user" (str "a dog")) (
            cons (message "assistant" (str "done")) (
              cons
                (message "user"
                  (list (cons (str "a cat") (cons (image_part "https://a/b.png") nil))))
                nil)))))
      end)

abbrev chat_request : Fields
chat_request = field "prompt" (str "in ink\n\na cat") (field "image" (str "https://a/b.png") end)

messages_to_canonical_test : messages_to_canonical show chat ≡ ok chat_request
unfolding messages_to_canonical
messages_to_canonical_test = refl

messages_to_canonical-request_of_example : messages_to_canonical show chat ≡ (
    messages_of (get_or_null "messages" chat) >>= λ messages.
    read_turns show 0 messages >>= request_of (get_or_null "model" chat))
messages_to_canonical-request_of_example = messages_to_canonical-request_of show chat

chat_prepare_test : chat_prepare show chat ≡ ok chat_request
unfolding chat_prepare validate_images_body
chat_prepare_test = refl

-- a bare run of parts after an answer
abbrev input : Fields
input =
    field "input"
      (list (
        cons (message "user" (str "a dog")) (
          cons (message "assistant" (str "done"))
            (cons (image_part "https://a/b.png") (cons (str "a cat") nil)))))
      end

input_to_canonical_test :
    input_to_canonical show input null
    ≡ ok (field "prompt" (str "a cat") (field "image" (str "https://a/b.png") end))
unfolding input_to_canonical
input_to_canonical_test = refl

input_to_canonical-asked_example : input_to_canonical show input null ≡ (
    input_items show (get_or_null "input" input) >>= λ items.
    ok
      (input_request input null (instruction_texts items) (instruction_images items) (asked items)))
input_to_canonical-asked_example = input_to_canonical-asked show input null

abbrev no_base64 : String → Option Bytes
no_base64 encoded = none

abbrev fresh : ℕ → String
fresh n = "id"

abbrev pictures : Items
pictures =
    cons (dict (field "url" (str "https://a/b.png") end))
      (cons (dict (field "b64_json" (str "aaaa") end)) nil)

abbrev reply : Fields
reply = field "data" (list pictures) (field "usage" (int (pos 7)) end)

canonical_to_chat-found_example :
    (out : Fields) × (canonical_to_chat no_base64 fresh (int (pos 5)) null (dict reply) ≡ dict out)
    × (get "usage" out ≡ some (int (pos 7)))
unfolding filled get
canonical_to_chat-found_example =
    canonical_to_chat-found no_base64 fresh (int (pos 5)) null reply pictures refl refl "usage"

-- a file that declares its type, a blank mask and a count
abbrev form : List FormField
form =
    record {
      key = "image[]";
      first = upload (1 ∷ []) (some "image/png");
      others = text " https://a/b.png " ∷ [];
    }
    ∷ record { key = "mask"; first = text " "; others = [] }
    ∷ record { key = "n"; first = text "x"; others = [] }
    ∷ []

abbrev encode : Bytes → String
encode raw = "AQ=="

abbrev no_int : String → Option ℤ
no_int digits = none

abbrev form_body : Fields
form_body =
    field "image"
      (list (cons (str "data:image/png;base64,AQ==") (cons (str "https://a/b.png") nil)))
      (field "n" (str "x") end)

normalise_edits_form_test : normalise_edits_form encode no_int 10 form ≡ ok form_body
unfolding normalise_edits_form
normalise_edits_form_test = refl

normalise_edits_form-IsFormBody_example :
    IsFormBody form_body
    × (get "image" form_body ≡ as_image (last_references encode no_int 10 "image" form))
    × (get "mask" form_body ≡ as_mask (last_references encode no_int 10 "mask" form))
normalise_edits_form-IsFormBody_example =
    normalise_edits_form-IsFormBody encode no_int 10 form form_body normalise_edits_form_test

-- `image` and `image[]` in one form: the later key replaces the earlier one
normalise_edits_form_two_keys_test :
    normalise_edits_form encode no_int 10 (
      record { key = "image"; first = text "a"; others = [] }
      ∷ record { key = "image[]"; first = text "b"; others = [] }
      ∷ [])
    ≡ ok (field "image" (str "b") end)
unfolding normalise_edits_form
normalise_edits_form_two_keys_test = refl
