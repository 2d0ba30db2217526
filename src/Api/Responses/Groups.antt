-- ===== src/Api/Responses/Groups.antt =====
-- What a responses input asks for: its items, the turns that they group into, and the last one.
use image_adapter.Base.{
  ℕ, suc, String, Bool, true, false, not, ◌||◌, List, [], ◌∷◌, ◌++◌, is_some, if◌then◌else◌, ◌≡◌,
  refl, sym, ap, ◌∙◌, ◌≡⟨◌⟩◌, ◌∎,
}
use image_adapter.Text.{append}
use image_adapter.Errors.{
  AdapterError, Result, ok, err, ◌>>=◌, >>=-assoc, >>=-cong, invalid_request, unsupported,
}
use image_adapter.Value.{
  Value, str, list, dict, Items, nil, cons, Fields, get, get_or_null, is_null,
}
use image_adapter.Api.Parts.{
  instruction_roles, is_in, at_index, Content, Parts, add_text, read_part, read_content,
}
use image_adapter.Api.Chat.{is_role}
use image_adapter.Api.Responses.{
  Session, says, close_turn, start_turn, add_string, add_chunk, add_instruction, part_types,
  read_message, read_bare, read_item, read_items, no_parts, last_turn,
}

-- What one item is: an instruction, an earlier answer, a request, a part of one, or a bare string.
pub data Item : Type 0 where
  instruction : Content → Item
  answer : Item
  request : Content → Item
  part : Content → Item
  line : String → Item

abbrev pub message_item : (Value → String) → String → Fields → Bool → Result Item
message_item show spot item is_instruction =
    let role = get_or_null "role" item in
    let content = read_content show (get_or_null "content" item) (append spot ".content") in
    if is_instruction
    then content >>= (λ c. ok (instruction c))
    else if is_role "assistant" role
    then ok answer
    else if not (is_null role || is_role "user" role)
    then err (unsupported (append spot ".role"))
    else content >>= λ c. ok (request c)

abbrev pub bare_item : (Value → String) → String → Fields → Bool → Result Item
bare_item show spot item is_part =
    if is_part
    then read_part show (dict item) spot >>= (λ c. ok (part c))
    else err (unsupported (append spot ".type"))

unfoldable pub item_of : (Value → String) → String → Value → Result Item
item_of show spot (str text) = ok (line text)
item_of show spot (dict item) =
    if is_some (get "content" item)
    then is_in (get_or_null "role" item) instruction_roles >>= message_item show spot item
    else is_in (get_or_null "type" item) part_types >>= bare_item show spot item
item_of show spot v = err (invalid_request spot)

unfoldable pub items_of : (Value → String) → ℕ → Items → Result (List Item)
unfolding item_of
items_of show i nil = ok []
items_of show i (cons v vs) = do
  item ← item_of show (at_index show "input" i) v
  rest ← items_of show (suc i) vs
  ok (item ∷ rest)

unfoldable pub input_items : (Value → String) → Value → Result (List Item)
unfolding items_of
input_items show (str text) = ok (line text ∷ [])
input_items show (list items) = items_of show 0 items
input_items show v = err (invalid_request "input")

-- the texts of the instructions, without the empty ones, and their images
abbrev pub instruction_texts : List Item → List String
instruction_texts [] = []
instruction_texts (instruction c ∷ rest) = add_text c.text (instruction_texts rest)
instruction_texts (item ∷ rest) = instruction_texts rest

abbrev pub instruction_images : List Item → List String
instruction_images [] = []
instruction_images (instruction c ∷ rest) = c.refs ++ instruction_images rest
instruction_images (item ∷ rest) = instruction_images rest

abbrev pub parts_of : Content → Parts
parts_of c = record { texts = add_text c.text []; refs = c.refs }

abbrev pub join_parts : Parts → Parts → Parts
join_parts p q = record { texts = p.texts ++ q.texts; refs = p.refs ++ q.refs }

abbrev pub add_line : String → Parts → Parts
add_line text turn = record turn { texts = text ∷ turn.texts }

-- The turns that items group into: the rest of the turn that is open before them, and the later ones.
-- A request opens a turn, an answer ends one, an instruction belongs to none.
abbrev pub groups : List Item → Parts × List Parts
groups [] = (no_parts, [])
groups (item ∷ rest) = elim item [
  | instruction c ↦ groups rest
  | answer ↦ (no_parts, (groups rest).0 ∷ (groups rest).1)
  | request c ↦ (no_parts, join_parts (parts_of c) (groups rest).0 ∷ (groups rest).1)
  | part c ↦ (join_parts (parts_of c) (groups rest).0, (groups rest).1)
  | line text ↦ (add_line text (groups rest).0, (groups rest).1)
]

-- the turns that carry anything
abbrev pub saying : List Parts → List Parts
saying [] = []
saying (turn ∷ rest) = if says turn then turn ∷ saying rest else saying rest

-- the last turn that carries anything
abbrev pub asked : List Item → Parts
asked items = last_turn (saying ((groups items).0 ∷ (groups items).1))

-- The source's step for an item.
abbrev pub hear : Item → Session → Session
hear (instruction c) s = add_instruction c s
hear answer s = close_turn s
hear (request c) s = add_chunk c (start_turn true s)
hear (part c) s = add_chunk c (start_turn false s)
hear (line text) s = add_string text (start_turn false s)

abbrev pub hear_all : List Item → Session → Session
hear_all [] s = s
hear_all (item ∷ rest) s = hear_all rest (hear item s)

message_step :
    (content : Result Content) (a b c : Bool) (e : AdapterError) (s : Session)
    → (if a
        then content >>= (λ k. ok (add_instruction k s))
        else if b
        then ok (close_turn s)
        else if c
        then err e
        else content >>= λ k. ok (add_chunk k (start_turn true s)))
      ≡ ((if a
            then content >>= (λ k. ok (instruction k))
            else if b
            then ok answer
            else if c
            then err e
            else content >>= λ k. ok (request k))
          >>= λ item. ok (hear item s))
message_step content true b c e s =
    sym (>>=-assoc content (λ k. ok (instruction k)) (λ item. ok (hear item s)))
message_step content false true c e s = refl
message_step content false false true e s = refl
message_step content false false false e s =
    sym (>>=-assoc content (λ k. ok (request k)) (λ item. ok (hear item s)))

bare_step :
    (content : Result Content) (a : Bool) (e : AdapterError) (s : Session)
    → (if a then content >>= (λ k. ok (add_chunk k (start_turn false s))) else err e)
      ≡ ((if a then content >>= (λ k. ok (part k)) else err e) >>= λ item. ok (hear item s))
bare_step content true e s = sym (>>=-assoc content (λ k. ok (part k)) (λ item. ok (hear item s)))
bare_step content false e s = refl

-- an item that is an object, with `content` or without
object_step :
    (show : Value → String) (spot : String) (item : Fields) (b : Bool) (s : Session)
    → (if b
        then is_in (get_or_null "role" item) instruction_roles
          >>= (λ i. read_message show spot item i s)
        else is_in (get_or_null "type" item) part_types >>= λ i. read_bare show spot item i s)
      ≡ ((if b
            then is_in (get_or_null "role" item) instruction_roles >>= message_item show spot item
            else is_in (get_or_null "type" item) part_types >>= bare_item show spot item)
          >>= λ found. ok (hear found s))
object_step show spot item true s =
    let role = get_or_null "role" item in
    let content = read_content show (get_or_null "content" item) (append spot ".content") in
    >>=-cong (is_in role instruction_roles) (λ i.
      message_step content i (is_role "assistant" role) (not (is_null role || is_role "user" role))
        (unsupported (append spot ".role")) s)
    ∙ sym (
        >>=-assoc (is_in role instruction_roles) (message_item show spot item)
          (λ found. ok (hear found s)))
object_step show spot item false s =
    let kind = get_or_null "type" item in
    >>=-cong (is_in kind part_types)
      (λ i. bare_step (read_part show (dict item) spot) i (unsupported (append spot ".type")) s)
    ∙ sym
        (>>=-assoc (is_in kind part_types) (bare_item show spot item) (λ found. ok (hear found s)))

item_lem :
    (show : Value → String) (spot : String) (v : Value) (s : Session)
    → read_item show spot v s ≡ (item_of show spot v >>= λ item. ok (hear item s))
unfolding read_item item_of
item_lem show spot (str text) s = refl
item_lem show spot (dict item) s = object_step show spot item (is_some (get "content" item)) s
item_lem show spot v s = refl

pub items_lem :
    (show : Value → String) (i : ℕ) (vs : Items) (s : Session)
    → read_items show i vs s ≡ (items_of show i vs >>= λ items. ok (hear_all items s))
unfolding read_items items_of
items_lem show i nil s = refl
items_lem show i (cons v vs) s =
    let spot = at_index show "input" i in
    let item = item_of show spot v in
    read_item show spot v s >>= (λ next. read_items show (suc i) vs next)
    ≡⟨ ap (λ m. m >>= λ next. read_items show (suc i) vs next) (item_lem show spot v s) ⟩
      (item >>= λ found. ok (hear found s)) >>= (λ next. read_items show (suc i) vs next)
    ≡⟨ >>=-assoc item (λ found. ok (hear found s)) (λ next. read_items show (suc i) vs next) ⟩
      item >>= (λ found. read_items show (suc i) vs (hear found s))
    ≡⟨ >>=-cong item (λ found.
      items_lem show (suc i) vs (hear found s)
      ∙ sym (
          >>=-assoc (items_of show (suc i) vs) (λ rest. ok (found ∷ rest))
            (λ items. ok (hear_all items s)))) ⟩
      item >>= (λ found.
        (items_of show (suc i) vs >>= λ rest. ok (found ∷ rest)) >>= λ items. ok (hear_all items s))
    ≡⟨ sym (
        >>=-assoc item (λ found. items_of show (suc i) vs >>= λ rest. ok (found ∷ rest))
          (λ items. ok (hear_all items s))) ⟩
      items_of show i (cons v vs) >>= (λ items. ok (hear_all items s)) ∎
