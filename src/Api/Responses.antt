-- ===== src/Api/Responses.antt =====
-- adapter/api/frontdoor.py: input_to_canonical, one pass over the items of `input`, and
-- adapter/api/responses.py: what the responses door hands on. `prior` is None or the stored state.
pub mod Groups
pub mod LastTurn
use image_adapter.Base.{
  ℕ, suc, String, Bool, true, false, not, ◌&&◌, ◌||◌, Option, none, some, List, [], ◌∷◌, ◌++◌,
  is_empty, is_some, if◌then◌else◌,
}
use image_adapter.Text.{append, join}
use image_adapter.Errors.{Result, ok, err, ◌>>=◌, invalid_request, unsupported}
use image_adapter.Value.{
  Value, null, str, list, dict, Items, nil, cons, Fields, get, get_or_null, put, is_null,
}
use image_adapter.Api.Images.{validate_images_body}
use image_adapter.Api.Parts.{
  instruction_roles, text_part_types, image_part_types, is_in, at_index, Content, Parts, add_text,
  read_part, read_content,
}
use image_adapter.Api.Chat.{append_text, is_role, with_instructions, canonical_request}

-- `texts` and `refs` are the open turn, `turns` the banked ones
pub record Session : Type 0 where
  pub instructions : List String
  pub instruction_refs : List String
  pub turns : List Parts
  pub texts : List String
  pub refs : List String
  pub opened : Bool

abbrev pub new_session : Session
new_session = record {
  instructions = [];
  instruction_refs = [];
  turns = [];
  texts = [];
  refs = [];
  opened = false;
}

-- `texts or refs`
abbrev pub says : Parts → Bool
says turn = not (is_empty turn.texts) || not (is_empty turn.refs)

abbrev pub open_turn : Session → Parts
open_turn s = record { texts = s.texts; refs = s.refs }

unfoldable pub close_turn : Session → Session
close_turn s = record s {
  turns = if s.opened && says (open_turn s) then s.turns ++ open_turn s ∷ [] else s.turns;
  texts = [];
  refs = [];
  opened = false;
}

unfoldable pub start_turn : Bool → Session → Session
unfolding close_turn
start_turn fresh s = record (if fresh then close_turn s else s) { opened = true }

-- texts.append, for a bare string
abbrev pub add_string : String → Session → Session
add_string text s = record s { texts = s.texts ++ text ∷ [] }

-- `if chunk: texts.append(chunk)`, and refs.extend
abbrev pub add_chunk : Content → Session → Session
add_chunk c s = record s { texts = append_text c.text s.texts; refs = s.refs ++ c.refs }

abbrev pub add_instruction : Content → Session → Session
add_instruction c s = record s {
  instructions = append_text c.text s.instructions;
  instruction_refs = s.instruction_refs ++ c.refs;
}

abbrev pub part_types : List String
part_types = text_part_types ++ image_part_types

-- an item with `content`
abbrev pub read_message : (Value → String) → String → Fields → Bool → Session → Result Session
read_message show spot item is_instruction s =
    let role = get_or_null "role" item in
    let content = read_content show (get_or_null "content" item) (append spot ".content") in
    if is_instruction
    then content >>= (λ c. ok (add_instruction c s))
    else if is_role "assistant" role
    then ok (close_turn s)
    else if not (is_null role || is_role "user" role)
    then err (unsupported (append spot ".role"))
    else content >>= λ c. ok (add_chunk c (start_turn true s))

-- an item without `content`, which is itself a part
abbrev pub read_bare : (Value → String) → String → Fields → Bool → Session → Result Session
read_bare show spot item is_part s =
    if is_part
    then read_part show (dict item) spot >>= (λ c. ok (add_chunk c (start_turn false s)))
    else err (unsupported (append spot ".type"))

unfoldable pub read_item : (Value → String) → String → Value → Session → Result Session
unfolding get start_turn close_turn read_part read_content
read_item show spot (str text) s = ok (add_string text (start_turn false s))
read_item show spot (dict item) s =
    if is_some (get "content" item)
    then is_in (get_or_null "role" item) instruction_roles
      >>= (λ is_instruction. read_message show spot item is_instruction s)
    else is_in (get_or_null "type" item) part_types >>= λ is_part.
        read_bare show spot item is_part s
read_item show spot v s = err (invalid_request spot)

unfoldable pub read_items : (Value → String) → ℕ → Items → Session → Result Session
unfolding read_item
read_items show i nil s = ok s
read_items show i (cons v vs) s =
    read_item show (at_index show "input" i) v s >>= λ next. read_items show (suc i) vs next

-- `input` itself: a string, or an array
unfoldable pub read_input : (Value → String) → Value → Result Session
unfolding read_items start_turn
read_input show (str text) = ok (add_string text (start_turn false new_session))
read_input show (list items) = read_items show 0 items new_session
read_input show v = err (invalid_request "input")

abbrev pub no_parts : Parts
no_parts = record { texts = []; refs = [] }

-- turns[-1] if turns else ([], [])
abbrev pub last_turn : List Parts → Parts
last_turn [] = no_parts
last_turn (turn ∷ []) = turn
last_turn (turn ∷ next ∷ rest) = last_turn (next ∷ rest)

-- `if v is not None: d[k] = v`
abbrev pub put_if_set : String → Value → Fields → Fields
put_if_set k v d = if is_null v then d else put k v d

-- the request for one turn under the instructions
unfoldable pub input_request : Fields → Value → List String → List String → Parts → Fields
unfolding get put join with_instructions canonical_request
input_request body prior instructions instruction_refs turn = put_if_set "_previous_ctx" prior (
    put_if_set "tools" (get_or_null "tools" body) (
      canonical_request (get_or_null "model" body)
        (with_instructions instructions (join "\n" turn.texts)) (instruction_refs ++ turn.refs)))

-- input_to_canonical
unfoldable pub input_to_canonical : (Value → String) → Fields → Value → Result Fields
unfolding get read_input close_turn input_request
input_to_canonical show body prior = do
  s ← read_input show (get_or_null "input" body)
  let closed = close_turn s
  ok (input_request body prior closed.instructions closed.instruction_refs (last_turn closed.turns))

-- responses_handler.prepare, with the state that was loaded
unfoldable pub responses_prepare : (Value → String) → Fields → Value → Result Fields
unfolding input_to_canonical
responses_prepare show original prior =
    input_to_canonical show original prior >>= validate_images_body show
