-- ===== src/Utils/Sse.antt =====
-- adapter/utils/sse.py: _deltas. A delta carries a text, or one part that is no text.
pub mod Streaming
use image_adapter.Base.{
  ℕ, zero, suc, ◌≤◌, String, Bool, true, false, List, [], ◌∷◌, ◌++◌, All, All-append, if◌then◌else◌,
  Bool-cases, inl, inr, ◌≡◌, refl, sym, ap, ◌∙◌, arith,
}
use Prim.Native.String.{[], ◌∷◌}
use mathlib.Core.Path.{subst}
use image_adapter.Text.{blank, append, take, drop, text_length}
use image_adapter.Value.{Value, str, list, dict, Items, nil, cons, Fields, get, get_or_null, truthy}
use image_adapter.Transport.{text_of}
use image_adapter.Api.Chat.{is_role}

abbrev pub chunk_size : ℕ
chunk_size = 8

pub data Delta : Type 0 where
  text_delta : String → Delta
  part_delta : Value → Delta

-- the slices at 0, 8, 16 and so on; `left` bounds how many
unfoldable pub slices : ℕ → String → List Delta
unfolding take drop
slices zero s = []
slices (suc left) s =
    let rest = slices left (drop chunk_size s) in
    if blank s then [] else text_delta (take chunk_size s) ∷ rest

unfoldable pub text_deltas : String → List Delta
unfolding slices text_length
text_deltas s = slices (text_length s) s

-- str(part.get("text") or "")
abbrev pub shown_text : (Value → String) → Fields → String
shown_text show part =
    if truthy (get_or_null "text" part) then text_of show (get_or_null "text" part) else ""

unfoldable pub part_deltas : (Value → String) → Value → List Delta
unfolding get truthy text_deltas
part_deltas show (dict part) =
    if is_role "text" (get_or_null "type" part)
    then text_deltas (shown_text show part)
    else part_delta (dict part) ∷ []
part_deltas show part = part_delta part ∷ []

unfoldable pub all_deltas : (Value → String) → Items → List Delta
unfolding part_deltas
all_deltas show nil = []
all_deltas show (cons part parts) = part_deltas show part ++ all_deltas show parts

-- _deltas
unfoldable pub deltas : (Value → String) → Value → List Delta
unfolding text_deltas all_deltas
deltas show (str s) = text_deltas s
deltas show (list parts) = all_deltas show parts
deltas show content = []
