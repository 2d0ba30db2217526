-- ===== src/Api/Chat.antt =====
-- adapter/api/frontdoor.py: messages_to_canonical, one pass over the messages.
pub mod Turns
pub mod Door
use image_adapter.Base.{
  ℕ, suc, eqb, String, Bool, true, false, not, ◌||◌, Option, none, some, List, [], ◌∷◌, ◌++◌, ◌==◌,
  is_empty, if◌then◌else◌,
}
use image_adapter.Text.{blank, append, join}
use image_adapter.Errors.{
  Result, ok, err, crash, ◌>>=◌, ◌>>◌, refuse_if, invalid_request, unsupported,
}
use image_adapter.Value.{
  Value, null, str, list, dict, Items, nil, cons, Fields, end, get, get_or_null, put, is_null,
}
use image_adapter.Api.Images.{validate_images_body}
use image_adapter.Api.Parts.{
  instruction_roles, is_in, at_index, Content, add_text, read_content, attach_images,
}

-- what the loop has seen
pub record Heard : Type 0 where
  pub instructions : List String
  pub instruction_refs : List String
  pub user_text : String
  pub user_refs : List String
  pub users : ℕ

abbrev pub nothing_heard : Heard
nothing_heard = record {
  instructions = [];
  instruction_refs = [];
  user_text = "";
  user_refs = [];
  users = 0;
}

-- list.append of a text that is not blank
abbrev pub append_text : String → List String → List String
append_text text texts = texts ++ add_text text []

abbrev pub hear_instruction : Content → Heard → Heard
hear_instruction content h = record h {
  instructions = append_text content.text h.instructions;
  instruction_refs = h.instruction_refs ++ content.refs;
}

-- the last one wins, images included
abbrev pub hear_user : Content → Heard → Heard
hear_user content h = record h {
  user_text = content.text;
  user_refs = content.refs;
  users = suc h.users;
}

-- `role == name`
abbrev pub is_role : String → Value → Bool
is_role name (str s) = s == name
is_role name v = false

-- one message that is an object, by its role
abbrev pub read_role : (Value → String) → String → Fields → Bool → Heard → Result Heard
read_role show spot message is_instruction h =
    let content = read_content show (get_or_null "content" message) (append spot ".content") in
    if is_instruction
    then content >>= (λ c. ok (hear_instruction c h))
    else if is_role "user" (get_or_null "role" message)
    then content >>= (λ c. ok (hear_user c h))
    else if is_role "assistant" (get_or_null "role" message)
    then ok h
    else err (unsupported (append spot ".role"))

unfoldable pub read_message : (Value → String) → String → Value → Heard → Result Heard
unfolding get read_content
read_message show spot (dict message) h =
    is_in (get_or_null "role" message) instruction_roles >>= λ is_instruction.
    read_role show spot message is_instruction h
read_message show spot v h = err (invalid_request spot)

unfoldable pub read_messages : (Value → String) → ℕ → Items → Heard → Result Heard
unfolding read_message
read_messages show i nil h = ok h
read_messages show i (cons v vs) h = read_message show (at_index show "messages" i) v h >>= λ next.
    read_messages show (suc i) vs next

-- the instructions in front of the request itself
unfoldable pub with_instructions : List String → String → String
unfolding join
with_instructions instructions text =
    if is_empty instructions then text else append (join "\n" instructions) (append "\n\n" text)

-- `if body.get("model") is not None`
abbrev pub named : Value → Fields
named model = if is_null model then end else put "model" model end

unfoldable pub canonical_request : Value → String → List String → Fields
unfolding put attach_images
canonical_request model prompt refs = attach_images refs (put "prompt" (str prompt) (named model))

-- the `messages` of a body that has some
abbrev pub messages_of : Value → Result Items
messages_of (list (cons v vs)) = ok (cons v vs)
messages_of v = err (invalid_request "messages")

-- messages_to_canonical
unfoldable pub messages_to_canonical : (Value → String) → Fields → Result Fields
unfolding get read_messages with_instructions canonical_request
messages_to_canonical show body = do
  messages ← messages_of (get_or_null "messages" body)
  h ← read_messages show 0 messages nothing_heard
  refuse_if (eqb h.users 0) (invalid_request "messages")
  ok (
      canonical_request (get_or_null "model" body) (with_instructions h.instructions h.user_text)
        (h.instruction_refs ++ h.user_refs))

-- chat_handler.prepare: the body that the pipeline runs with
unfoldable pub chat_prepare : (Value → String) → Fields → Result Fields
unfolding messages_to_canonical
chat_prepare show original = messages_to_canonical show original >>= validate_images_body show
