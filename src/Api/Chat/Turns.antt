-- ===== src/Api/Chat/Turns.antt =====
-- What a chat asks for: the turns that its messages are, and the request that they amount to.
use image_adapter.Base.{
  ℕ, suc, eqb, String, Bool, true, false, Option, none, some, List, [], ◌∷◌, ◌++◌, if◌then◌else◌,
  Option-cases, inl, inr, ◌≡◌, refl, sym, ap, ◌∙◌, ◌≡⟨◌⟩◌, ◌∎, arith,
}
use mathlib.Core.List.{append-nil, append_assoc}
use image_adapter.Text.{append}
use image_adapter.Errors.{
  AdapterError, Result, ok, err, ◌>>=◌, ◌>>◌, >>=-assoc, >>=-cong, refuse_if, invalid_request,
  unsupported,
}
use image_adapter.Value.{Value, dict, Items, nil, cons, Fields, get_or_null}
use image_adapter.Api.Parts.{instruction_roles, is_in, at_index, Content, add_text, read_content}
use image_adapter.Api.Chat.{
  Heard, nothing_heard, append_text, hear_instruction, hear_user, is_role, read_message,
  read_messages, with_instructions, canonical_request, messages_of, messages_to_canonical,
}

-- What one message is: an instruction, a request, or an earlier answer.
pub data Turn : Type 0 where
  instruction : Content → Turn
  user : Content → Turn
  answer : Turn

abbrev pub role_turn : (Value → String) → String → Fields → Bool → Result Turn
role_turn show spot message is_instruction =
    let content = read_content show (get_or_null "content" message) (append spot ".content") in
    if is_instruction
    then content >>= (λ c. ok (instruction c))
    else if is_role "user" (get_or_null "role" message)
    then content >>= (λ c. ok (user c))
    else if is_role "assistant" (get_or_null "role" message)
    then ok answer
    else err (unsupported (append spot ".role"))

unfoldable pub read_turn : (Value → String) → String → Value → Result Turn
read_turn show spot (dict message) =
    is_in (get_or_null "role" message) instruction_roles >>= λ is_instruction.
    role_turn show spot message is_instruction
read_turn show spot v = err (invalid_request spot)

unfoldable pub read_turns : (Value → String) → ℕ → Items → Result (List Turn)
unfolding read_turn
read_turns show i nil = ok []
read_turns show i (cons v vs) = do
  turn ← read_turn show (at_index show "messages" i) v
  rest ← read_turns show (suc i) vs
  ok (turn ∷ rest)

-- the texts of the instructions, without the empty ones
abbrev pub instruction_texts : List Turn → List String
instruction_texts [] = []
instruction_texts (instruction c ∷ rest) = add_text c.text (instruction_texts rest)
instruction_texts (turn ∷ rest) = instruction_texts rest

-- the images of the instructions, in order
abbrev pub instruction_images : List Turn → List String
instruction_images [] = []
instruction_images (instruction c ∷ rest) = c.refs ++ instruction_images rest
instruction_images (turn ∷ rest) = instruction_images rest

-- the last request
abbrev pub last_user : List Turn → Option Content
last_user [] = none
last_user (user c ∷ rest) = elim (last_user rest) [ none ↦ some c | some later ↦ some later ]
last_user (turn ∷ rest) = last_user rest

-- The request that turns amount to: the last user turn, under all instructions.
abbrev pub request_of : Value → List Turn → Result Fields
request_of model turns = elim (last_user turns) [
  | none ↦ err (invalid_request "messages")
  | some c ↦ ok (
      canonical_request model (with_instructions (instruction_texts turns) c.text)
        (instruction_images turns ++ c.refs))
]

abbrev hear : Turn → Heard → Heard
hear (instruction c) h = hear_instruction c h
hear (user c) h = hear_user c h
hear answer h = h

abbrev hear_all : List Turn → Heard → Heard
hear_all [] h = h
hear_all (turn ∷ rest) h = hear_all rest (hear turn h)

-- a message's step, by the three tests on its role
role_step :
    (content : Result Content) (a b c : Bool) (e : AdapterError) (h : Heard)
    → (if a
        then content >>= (λ k. ok (hear_instruction k h))
        else if b
        then content >>= (λ k. ok (hear_user k h))
        else if c
        then ok h
        else err e)
      ≡ ((if a
            then content >>= (λ k. ok (instruction k))
            else if b
            then content >>= (λ k. ok (user k))
            else if c
            then ok answer
            else err e)
          >>= λ turn. ok (hear turn h))
role_step content true b c e h =
    sym (>>=-assoc content (λ k. ok (instruction k)) (λ turn. ok (hear turn h)))
role_step content false true c e h =
    sym (>>=-assoc content (λ k. ok (user k)) (λ turn. ok (hear turn h)))
role_step content false false true e h = refl
role_step content false false false e h = refl

read_turn_lem :
    (show : Value → String) (spot : String) (v : Value) (h : Heard)
    → read_message show spot v h ≡ (read_turn show spot v >>= λ turn. ok (hear turn h))
unfolding read_message read_turn
read_turn_lem show spot (dict message) h =
    let role = get_or_null "role" message in
    let content = read_content show (get_or_null "content" message) (append spot ".content") in
    >>=-cong (is_in role instruction_roles) (λ b.
      role_step content b (is_role "user" role) (is_role "assistant" role)
        (unsupported (append spot ".role")) h)
    ∙ sym (
        >>=-assoc (is_in role instruction_roles) (role_turn show spot message)
          (λ turn. ok (hear turn h)))
read_turn_lem show spot v h = refl

read_turns_lem :
    (show : Value → String) (i : ℕ) (vs : Items) (h : Heard)
    → read_messages show i vs h ≡ (read_turns show i vs >>= λ turns. ok (hear_all turns h))
unfolding read_messages read_turns
read_turns_lem show i nil h = refl
read_turns_lem show i (cons v vs) h =
    let spot = at_index show "messages" i in
    let turn_of = read_turn show spot v in
    read_message show spot v h >>= (λ next. read_messages show (suc i) vs next)
    ≡⟨ ap (λ m. m >>= λ next. read_messages show (suc i) vs next) (read_turn_lem show spot v h) ⟩
      (turn_of >>= λ turn. ok (hear turn h)) >>= (λ next. read_messages show (suc i) vs next)
    ≡⟨ >>=-assoc turn_of (λ turn. ok (hear turn h)) (λ next. read_messages show (suc i) vs next) ⟩
      turn_of >>= (λ turn. read_messages show (suc i) vs (hear turn h))
    ≡⟨ >>=-cong turn_of (λ turn.
      read_turns_lem show (suc i) vs (hear turn h)
      ∙ sym (
          >>=-assoc (read_turns show (suc i) vs) (λ rest. ok (turn ∷ rest))
            (λ turns. ok (hear_all turns h)))) ⟩
      turn_of >>= (λ turn. (read_turns show (suc i) vs >>= λ rest. ok (turn ∷ rest)) >>= λ turns.
      ok (hear_all turns h))
    ≡⟨ sym (
        >>=-assoc turn_of (λ turn. read_turns show (suc i) vs >>= λ rest. ok (turn ∷ rest))
          (λ turns. ok (hear_all turns h))) ⟩
      read_turns show i (cons v vs) >>= (λ turns. ok (hear_all turns h)) ∎

pub add_text_append :
    (text : String) (before after : List String)
    → append_text text before ++ after ≡ before ++ add_text text after
add_text_append text before after =
    append_assoc before (add_text text []) after ∙ ap (λ texts. before ++ texts) (ground arith)

hear_all-instructions :
    (turns : List Turn) (h : Heard)
    → (hear_all turns h).instructions ≡ h.instructions ++ instruction_texts turns
hear_all-instructions [] h = sym (append-nil h.instructions)
hear_all-instructions (instruction c ∷ rest) h =
    hear_all-instructions rest (hear_instruction c h)
    ∙ add_text_append c.text h.instructions (instruction_texts rest)
hear_all-instructions (user c ∷ rest) h = hear_all-instructions rest (hear_user c h)
hear_all-instructions (answer ∷ rest) h = hear_all-instructions rest h

hear_all-refs :
    (turns : List Turn) (h : Heard)
    → (hear_all turns h).instruction_refs ≡ h.instruction_refs ++ instruction_images turns
hear_all-refs [] h = sym (append-nil h.instruction_refs)
hear_all-refs (instruction c ∷ rest) h =
    hear_all-refs rest (hear_instruction c h)
    ∙ append_assoc h.instruction_refs c.refs (instruction_images rest)
hear_all-refs (user c ∷ rest) h = hear_all-refs rest (hear_user c h)
hear_all-refs (answer ∷ rest) h = hear_all-refs rest h

-- the last request, or what was heard before
hear_all-user :
    (turns : List Turn) (h : Heard)
    → (hear_all turns h).user_text ≡ elim (last_user turns) [ none ↦ h.user_text | some c ↦ c.text ]
hear_all-user [] h = refl
hear_all-user (instruction c ∷ rest) h = hear_all-user rest (hear_instruction c h)
hear_all-user (user c ∷ rest) h = hear_all-user rest (hear_user c h) ∙ ground arith
hear_all-user (answer ∷ rest) h = hear_all-user rest h

hear_all-images :
    (turns : List Turn) (h : Heard)
    → (hear_all turns h).user_refs ≡ elim (last_user turns) [ none ↦ h.user_refs | some c ↦ c.refs ]
hear_all-images [] h = refl
hear_all-images (instruction c ∷ rest) h = hear_all-images rest (hear_instruction c h)
hear_all-images (user c ∷ rest) h = hear_all-images rest (hear_user c h) ∙ ground arith
hear_all-images (answer ∷ rest) h = hear_all-images rest h

hear_all-users :
    (turns : List Turn) (h : Heard)
    → eqb (hear_all turns h).users 0
      ≡ elim (last_user turns) [ none ↦ eqb h.users 0 | some c ↦ false ]
hear_all-users [] h = refl
hear_all-users (instruction c ∷ rest) h = hear_all-users rest (hear_instruction c h)
hear_all-users (user c ∷ rest) h = hear_all-users rest (hear_user c h) ∙ ground arith
hear_all-users (answer ∷ rest) h = hear_all-users rest h

-- what the source makes of what it heard
abbrev request_from : Value → Heard → Result Fields
request_from model h =
    refuse_if (eqb h.users 0) (invalid_request "messages")
    >> ok (
        canonical_request model (with_instructions h.instructions h.user_text)
          (h.instruction_refs ++ h.user_refs))

request_from_lem :
    (model : Value) (turns : List Turn)
    → request_from model (hear_all turns nothing_heard) ≡ request_of model turns
request_from_lem model turns =
    rw
      (
        hear_all-instructions turns nothing_heard,
        hear_all-refs turns nothing_heard,
        hear_all-user turns nothing_heard,
        hear_all-images turns nothing_heard,
        hear_all-users turns nothing_heard,
      )
      (elim (Option-cases (last_user turns)) [
        | inl nobody ↦ rw (nobody, request_of) refl
        | inr (c, said) ↦ rw (said, request_of) refl
      ])

-- The canonical request of a chat is the one that its turns amount to: the last user turn supplies the
-- prompt and the images, under the texts and after the images of every instruction, and earlier user
-- turns and all answers are left out. Without a user turn, with a message that is no object, has an
-- unknown role, or has content that cannot be read, the chat is refused as its turns are.
pub messages_to_canonical-request_of :
    (show : Value → String) (body : Fields)
    → messages_to_canonical show body ≡ (
        messages_of (get_or_null "messages" body) >>= λ messages.
        read_turns show 0 messages >>= request_of (get_or_null "model" body))
unfolding messages_to_canonical
messages_to_canonical-request_of show body =
    let model = get_or_null "model" body in
    >>=-cong (messages_of (get_or_null "messages" body)) λ messages.
      ap (λ m. m >>= request_from model) (read_turns_lem show 0 messages nothing_heard)
      ∙ >>=-assoc (read_turns show 0 messages) (λ turns. ok (hear_all turns nothing_heard))
          (request_from model)
      ∙ >>=-cong (read_turns show 0 messages) (request_from_lem model)
