-- ===== src/Api/Responses/LastTurn.antt =====
-- The responses door asks for the last turn of its input.
use mathlib.Core.List.{append-nil, append_assoc}
use image_adapter.Base.{
  String, true, false, List, [], ◌∷◌, ◌++◌, Bool-cases, inl, inr, ◌⊎◌, ◌≡◌, refl, sym, ap, ◌∙◌,
  ◌≡⟨◌⟩◌, ◌∎, arith,
}
use image_adapter.Errors.{ok, ◌>>=◌, >>=-assoc, >>=-cong}
use image_adapter.Value.{Value, str, list, Fields, get_or_null}
use image_adapter.Api.Parts.{Parts}
use image_adapter.Api.Chat.Turns.{add_text_append}
use image_adapter.Api.Responses.{
  Session, new_session, says, open_turn, close_turn, start_turn, add_string, add_chunk,
  add_instruction, read_input, no_parts, last_turn, input_request, input_to_canonical,
}
use image_adapter.Api.Responses.Groups.{
  Item, instruction, answer, request, part, line, input_items, instruction_texts,
  instruction_images, parts_of, join_parts, groups, saying, asked, hear, hear_all, items_lem,
}

-- a session whose turn is not open has no parts waiting
abbrev IsSound : Session → Type 0
IsSound s = (s.opened ≡ true) ⊎ (open_turn s ≡ no_parts)

close_turn_banks :
    (s : Session) → IsSound s → (close_turn s).turns ≡ s.turns ++ saying (open_turn s ∷ [])
unfolding close_turn
close_turn_banks s (inl opened) = rw opened (elim (Bool-cases (says (open_turn s))) [
  | inl full ↦ rw full refl
  | inr empty ↦ rw empty (sym (append-nil s.turns))
])
close_turn_banks s (inr empty) = rw empty (ground (arith, append-nil s.turns))

join_parts-no_parts : (p : Parts) → join_parts p no_parts ≡ p
join_parts-no_parts p = λ i. record { texts = append-nil p.texts i; refs = append-nil p.refs i }

join_parts_assoc : (p q r : Parts) → join_parts (join_parts p q) r ≡ join_parts p (join_parts q r)
join_parts_assoc p q r = λ i. record {
  texts = append_assoc p.texts q.texts r.texts i;
  refs = append_assoc p.refs q.refs r.refs i;
}

saying-cons :
    (turn : Parts) (rest : List Parts) → saying (turn ∷ rest) ≡ saying (turn ∷ []) ++ saying rest
saying-cons turn rest = elim (Bool-cases (says turn)) [
  | inl full ↦ rw full refl
  | inr empty ↦ rw empty refl
]

-- the turns, once a turn is closed before the next groups
after_close :
    (s : Session) (g : Parts) (gs : List Parts)
    → IsSound s
    → (close_turn s).turns ++ saying (g ∷ gs)
      ≡ s.turns ++ saying (join_parts (open_turn s) no_parts ∷ g ∷ gs)
after_close s g gs sound =
    let turn = open_turn s in
    (close_turn s).turns ++ saying (g ∷ gs)
    ≡⟨ ap (λ turns. turns ++ saying (g ∷ gs)) (close_turn_banks s sound) ⟩
      (s.turns ++ saying (turn ∷ [])) ++ saying (g ∷ gs)
    ≡⟨ append_assoc s.turns (saying (turn ∷ [])) (saying (g ∷ gs)) ⟩
      s.turns ++ (saying (turn ∷ []) ++ saying (g ∷ gs))
    ≡⟨ ap (λ turns. s.turns ++ turns) (sym (saying-cons turn (g ∷ gs))) ⟩
      s.turns ++ saying (turn ∷ g ∷ gs)
    ≡⟨ ap (λ p. s.turns ++ saying (p ∷ g ∷ gs)) (sym (join_parts-no_parts turn)) ⟩
      s.turns ++ saying (join_parts turn no_parts ∷ g ∷ gs) ∎

hear_all-turns :
    (items : List Item) (s : Session)
    → IsSound s
    → (close_turn (hear_all items s)).turns
      ≡ s.turns ++ saying (join_parts (open_turn s) (groups items).0 ∷ (groups items).1)
unfolding close_turn start_turn
hear_all-turns [] s sound =
    close_turn_banks s sound
    ∙ ap (λ p. s.turns ++ saying (p ∷ [])) (sym (join_parts-no_parts (open_turn s)))
hear_all-turns (instruction c ∷ rest) s (inl opened) =
    hear_all-turns rest (add_instruction c s) (inl opened)
hear_all-turns (instruction c ∷ rest) s (inr empty) =
    hear_all-turns rest (add_instruction c s) (inr empty)
hear_all-turns (answer ∷ rest) s sound =
    hear_all-turns rest (close_turn s) (inr refl)
    ∙ after_close s (groups rest).0 (groups rest).1 sound
hear_all-turns (request c ∷ rest) s sound =
    hear_all-turns rest (add_chunk c (start_turn true s)) (inl refl)
    ∙ after_close s (join_parts (parts_of c) (groups rest).0) (groups rest).1 sound
hear_all-turns (part c ∷ rest) s sound =
    hear_all-turns rest (add_chunk c (start_turn false s)) (inl refl)
    ∙ ap (λ p. s.turns ++ saying (p ∷ (groups rest).1))
        (join_parts_assoc (open_turn s) (parts_of c) (groups rest).0)
hear_all-turns (line text ∷ rest) s sound =
    hear_all-turns rest (add_string text (start_turn false s)) (inl refl)
    ∙ ap
        (λ texts.
          s.turns
          ++ saying
              (record { texts = texts; refs = s.refs ++ (groups rest).0.refs } ∷ (groups rest).1))
        (append_assoc s.texts (text ∷ []) (groups rest).0.texts)

hear_all-instructions :
    (items : List Item) (s : Session)
    → (close_turn (hear_all items s)).instructions ≡ s.instructions ++ instruction_texts items
unfolding close_turn start_turn
hear_all-instructions [] s = sym (append-nil s.instructions)
hear_all-instructions (instruction c ∷ rest) s =
    hear_all-instructions rest (add_instruction c s)
    ∙ add_text_append c.text s.instructions (instruction_texts rest)
hear_all-instructions (item ∷ rest) s = hear_all-instructions rest (hear item s)

hear_all-images :
    (items : List Item) (s : Session)
    → (close_turn (hear_all items s)).instruction_refs
      ≡ s.instruction_refs ++ instruction_images items
unfolding close_turn start_turn
hear_all-images [] s = sym (append-nil s.instruction_refs)
hear_all-images (instruction c ∷ rest) s =
    hear_all-images rest (add_instruction c s)
    ∙ append_assoc s.instruction_refs c.refs (instruction_images rest)
hear_all-images (item ∷ rest) s = hear_all-images rest (hear item s)

-- the source's session after an input is what its items make of it
read_input_lem :
    (show : Value → String) (input : Value)
    → read_input show input ≡ (input_items show input >>= λ items. ok (hear_all items new_session))
unfolding read_input input_items start_turn
read_input_lem show (str text) = refl
read_input_lem show (list items) = items_lem show 0 items new_session
read_input_lem show input = refl

-- what the source makes of a session
abbrev answer_of : Fields → Value → Session → Fields
answer_of body prior closed =
    input_request body prior closed.instructions closed.instruction_refs (last_turn closed.turns)

answer_of_lem :
    (body : Fields) (prior : Value) (items : List Item)
    → answer_of body prior (close_turn (hear_all items new_session))
      ≡ input_request body prior (instruction_texts items) (instruction_images items) (asked items)
answer_of_lem body prior items =
    rw
      (
        hear_all-instructions items new_session,
        hear_all-images items new_session,
        hear_all-turns items new_session (inr refl),
      )
      refl

-- The canonical request of a responses body is the one that its items amount to: the last turn that
-- carries anything supplies the prompt and the images, under the texts and after the images of every
-- instruction. A request opens a turn, the bare strings and parts after it belong to it, and an answer
-- ends it. An item that cannot be read refuses the body as it refuses the items.
pub input_to_canonical-asked :
    (show : Value → String) (body : Fields) (prior : Value)
    → input_to_canonical show body prior ≡ (
        input_items show (get_or_null "input" body) >>= λ items. ok (
          input_request body prior
            (instruction_texts items)
            (instruction_images items)
            (asked items)))
unfolding input_to_canonical
input_to_canonical-asked show body prior =
    let input = get_or_null "input" body in
    ap (λ m. m >>= λ s. ok (answer_of body prior (close_turn s))) (read_input_lem show input)
    ∙ >>=-assoc (input_items show input) (λ items. ok (hear_all items new_session))
        (λ s. ok (answer_of body prior (close_turn s)))
    ∙ >>=-cong (input_items show input)
        (λ items. ap (λ out. ok out) (answer_of_lem body prior items))
