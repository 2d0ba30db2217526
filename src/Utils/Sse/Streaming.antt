-- ===== src/Utils/Sse/Streaming.antt =====
-- What a streamed content amounts to.
use image_adapter.Base.{
  ℕ, zero, suc, ◌≤◌, String, false, List, [], ◌∷◌, ◌++◌, All, All-append, if◌then◌else◌, Bool-cases,
  inl, inr, ◌≡◌, refl, sym, ap, ◌∙◌, arith,
}
use Prim.Native.String.{[], ◌∷◌}
use image_adapter.Text.{blank, append, take, drop, text_length}
use image_adapter.Value.{Value, str, list, dict, Items, nil, cons, get_or_null}
use image_adapter.Api.Chat.{is_role}
use image_adapter.Utils.Sse.{
  chunk_size, Delta, text_delta, part_delta, slices, text_deltas, shown_text, part_deltas,
  all_deltas, deltas,
}

-- What a client makes of deltas: the texts joined, and the parts that are no texts.
abbrev pub joined_texts : List Delta → String
joined_texts [] = ""
joined_texts (text_delta s ∷ rest) = append s (joined_texts rest)
joined_texts (part_delta part ∷ rest) = joined_texts rest

abbrev pub other_parts : List Delta → List Value
other_parts [] = []
other_parts (text_delta s ∷ rest) = other_parts rest
other_parts (part_delta part ∷ rest) = part ∷ other_parts rest

-- The text of one part, and of a content; the parts of a content that are no texts.
abbrev pub text_in : (Value → String) → Value → String
text_in show (dict part) =
    if is_role "text" (get_or_null "type" part) then shown_text show part else ""
text_in show part = ""

abbrev pub others_in : Value → List Value
others_in (dict part) = if is_role "text" (get_or_null "type" part) then [] else dict part ∷ []
others_in part = part ∷ []

abbrev pub content_text : (Value → String) → Items → String
content_text show nil = ""
content_text show (cons part parts) = append (text_in show part) (content_text show parts)

abbrev pub content_others : Items → List Value
content_others nil = []
content_others (cons part parts) = others_in part ++ content_others parts

-- a delta is one part, or a text of 1 to 8 characters
abbrev pub IsDelta : Delta → Type 0
IsDelta (text_delta s) = (blank s ≡ false) × (text_length s ≤ chunk_size)
IsDelta (part_delta part) = Unit {0}

append-take-drop : (n : ℕ) (s : String) → append (take n s) (drop n s) ≡ s
unfolding take drop
append-take-drop zero s = refl
append-take-drop (suc n) [] = refl
append-take-drop (suc n) (c ∷ s) = ap (λ t. c ∷ t) (append-take-drop n s)

length-take : (n : ℕ) (s : String) → text_length (take n s) ≤ n
unfolding take text_length
length-take zero s = omega arith
length-take (suc n) [] = omega arith
length-take (suc n) (c ∷ s) = omega (arith, length-take n s)

length-drop : (n : ℕ) (s : String) → text_length (drop n s) ≤ text_length s
unfolding drop text_length
length-drop zero s = omega arith
length-drop (suc n) [] = omega arith
length-drop (suc n) (c ∷ s) = omega (arith, length-drop n s)

slices-joined_texts :
    (left : ℕ) (s : String) → text_length s ≤ left → joined_texts (slices left s) ≡ s
unfolding slices text_length
slices-joined_texts zero [] h = refl
slices-joined_texts zero (c ∷ s) h = absurd (omega (arith, h))
slices-joined_texts (suc left) [] h = refl
slices-joined_texts (suc left) (c ∷ s) h =
    ap (λ t. c ∷ append (take 7 s) t)
      (slices-joined_texts left (drop 7 s) (omega (arith, h, length-drop 7 s)))
    ∙ ap (λ t. c ∷ t) (append-take-drop 7 s)

slices-others : (left : ℕ) (s : String) → other_parts (slices left s) ≡ []
unfolding slices
slices-others zero s = refl
slices-others (suc left) [] = refl
slices-others (suc left) (c ∷ s) = slices-others left (drop chunk_size (c ∷ s))

slices-IsDelta : (left : ℕ) (s : String) → All IsDelta (slices left s)
unfolding slices
slices-IsDelta zero s = tt
slices-IsDelta (suc left) [] = tt
slices-IsDelta (suc left) (c ∷ s) =
    ((refl, length-take chunk_size (c ∷ s)), slices-IsDelta left (drop chunk_size (c ∷ s)))

append_assoc_lem : (s t u : String) → append (append s t) u ≡ append s (append t u)
append_assoc_lem [] t u = refl
append_assoc_lem (c ∷ s) t u = ap (λ x. c ∷ x) (append_assoc_lem s t u)

append_nil_lem : (s : String) → append s "" ≡ s
append_nil_lem [] = refl
append_nil_lem (c ∷ s) = ap (λ x. c ∷ x) (append_nil_lem s)

joined_texts-append :
    (xs ys : List Delta) → joined_texts (xs ++ ys) ≡ append (joined_texts xs) (joined_texts ys)
joined_texts-append [] ys = refl
joined_texts-append (text_delta s ∷ xs) ys =
    ap (append s) (joined_texts-append xs ys)
    ∙ sym (append_assoc_lem s (joined_texts xs) (joined_texts ys))
joined_texts-append (part_delta part ∷ xs) ys = joined_texts-append xs ys

other_parts-append :
    (xs ys : List Delta) → other_parts (xs ++ ys) ≡ other_parts xs ++ other_parts ys
other_parts-append [] ys = refl
other_parts-append (text_delta s ∷ xs) ys = other_parts-append xs ys
other_parts-append (part_delta part ∷ xs) ys = ap (λ ps. part ∷ ps) (other_parts-append xs ys)

-- what the deltas of something carry
abbrev Carries : List Delta → String → List Value → Type 0
Carries ds text others = (joined_texts ds ≡ text) × (other_parts ds ≡ others) × All IsDelta ds

text_deltas-Carries : (s : String) → Carries (text_deltas s) s []
unfolding text_deltas
text_deltas-Carries s = (
  slices-joined_texts (text_length s) s (omega arith),
  slices-others (text_length s) s,
  slices-IsDelta (text_length s) s,
)

part_deltas-Carries :
    (show : Value → String) (part : Value)
    → Carries (part_deltas show part) (text_in show part) (others_in part)
unfolding part_deltas
part_deltas-Carries show (dict part) =
    elim (Bool-cases (is_role "text" (get_or_null "type" part))) [
      | inl is_text ↦ rw is_text (text_deltas-Carries (shown_text show part))
      | inr other ↦ rw other (refl, refl, (tt, tt))
    ]
part_deltas-Carries show part = (refl, refl, (tt, tt))

-- A client that joins the texts of a streamed content and keeps the other parts has, at the end, the text
-- parts of the content joined and its other parts in order; and every text on the way has one to eight
-- characters.
pub deltas-Carries :
    (show : Value → String) (parts : Items)
    → (joined_texts (deltas show (list parts)) ≡ content_text show parts)
      × (other_parts (deltas show (list parts)) ≡ content_others parts)
      × All IsDelta (deltas show (list parts))
unfolding deltas all_deltas
deltas-Carries show nil = (refl, refl, tt)
deltas-Carries show (cons part parts) =
    let (a, b, c) = part_deltas-Carries show part in
    let (d, e, f) = deltas-Carries show parts in
    (
      joined_texts-append (part_deltas show part) (all_deltas show parts)
          ∙ (λ i. append (a i) (d i)),
      other_parts-append (part_deltas show part) (all_deltas show parts) ∙ (λ i. b i ++ e i),
      All-append IsDelta (part_deltas show part) (all_deltas show parts) c f,
    )

-- A content that is a text is streamed as itself.
pub deltas-joined_texts :
    (show : Value → String) (s : String) → joined_texts (deltas show (str s)) ≡ s
unfolding deltas
deltas-joined_texts show s = (text_deltas-Carries s).0
