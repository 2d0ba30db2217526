-- ===== src/Text.antt =====
-- The methods of Python's `str` that the adapter calls on header values and settings: `strip`,
-- `lower`, `upper`, `split`, `partition`, `startswith`, `endswith` and `in`. Header values are
-- Latin-1, so case is mapped for ASCII and Latin-1 letters; other characters stay as they are.
pub mod Laws
use Prim.Native.Char.{Char, code}
use Prim.Native.String.{[], ◌∷◌}
use image_adapter.Base.{
  ℕ, zero, suc, ◌-◌, String, Bool, true, false, ◌&&◌, ◌||◌, List, [], ◌∷◌, leb, ltb, eqb, ◌==◌,
  if◌then◌else◌,
}

-- str.isspace, for one character
unfoldable pub is_space : Char → Bool
is_space ch =
    let c = code ch in
    (leb 9 c && leb c 13)
    || (leb 28 c && leb c 32)
    || eqb c 0x85
    || eqb c 0xa0
    || eqb c 0x1680
    || (leb 0x2000 c && leb c 0x200a)
    || eqb c 0x2028
    || eqb c 0x2029
    || eqb c 0x202f
    || eqb c 0x205f
    || eqb c 0x3000

unfoldable pub lstrip : String → String
lstrip [] = []
lstrip (c ∷ s) = if is_space c then lstrip s else c ∷ s

-- what `rstrip` makes of a character in front of what it has left
abbrev pub before_stripped : Char → String → String
before_stripped c [] = if is_space c then [] else c ∷ []
before_stripped c (d ∷ s) = c ∷ d ∷ s

unfoldable pub rstrip : String → String
rstrip [] = []
rstrip (c ∷ s) = before_stripped c (rstrip s)

unfoldable pub strip : String → String
unfolding lstrip rstrip is_space
strip s = rstrip (lstrip s)

-- s + t, by clauses
abbrev pub append : String → String → String
append [] t = t
append (c ∷ s) t = c ∷ append s t

-- `not s`
abbrev pub blank : String → Bool
blank [] = true
blank (c ∷ s) = false

unfoldable pub nth : String → ℕ → Char → Char
nth [] i d = d
nth (c ∷ s) zero d = c
nth (c ∷ s) (suc i) d = nth s i d

unfoldable pub lower_char : Char → Char
unfolding nth
lower_char ch =
    let c = code ch in
    if leb 65 c && leb c 90
    then nth "abcdefghijklmnopqrstuvwxyz" (c - 65) ch
    else if leb 0xc0 c && leb c 0xde
    then nth "àáâãäåæçèéêëìíîïðñòóôõö×øùúûüýþ" (c - 0xc0) ch
    else ch

-- `ß` becomes two letters in Python; no value that the adapter upper-cases may hold one
unfoldable pub upper_char : Char → Char
unfolding nth
upper_char ch =
    let c = code ch in
    if leb 97 c && leb c 122
    then nth "ABCDEFGHIJKLMNOPQRSTUVWXYZ" (c - 97) ch
    else if leb 0xe0 c && leb c 0xfe
    then nth "ÀÁÂÃÄÅÆÇÈÉÊËÌÍÎÏÐÑÒÓÔÕÖ÷ØÙÚÛÜÝÞ" (c - 0xe0) ch
    else ch

unfoldable pub lower : String → String
unfolding lower_char
lower [] = []
lower (c ∷ s) = lower_char c ∷ lower s

unfoldable pub upper : String → String
unfolding upper_char
upper [] = []
upper (c ∷ s) = upper_char c ∷ upper s

abbrev pub push_head : Char → List String → List String
push_head c [] = (c ∷ []) ∷ []
push_head c (w ∷ ws) = (c ∷ w) ∷ ws

-- s.split(sep) at a separator of one character, given by its code
unfoldable pub split : ℕ → String → List String
split sep [] = [] ∷ []
split sep (c ∷ s) =
    let rest = split sep s in if eqb (code c) sep then [] ∷ rest else push_head c rest

pub record Parts : Type 0 where
  pub head : String
  pub found : Bool
  pub tail : String

-- s.partition(sep)
unfoldable pub partition : ℕ → String → Parts
partition sep [] = record { head = []; found = false; tail = [] }
partition sep (c ∷ s) =
    let rest = partition sep s in
    if eqb (code c) sep
    then record { head = []; found = true; tail = s }
    else record rest { head = c ∷ rest.head }

-- c in s, for one character
unfoldable pub has_char : ℕ → String → Bool
has_char k [] = false
has_char k (c ∷ s) = eqb (code c) k || has_char k s

-- every character passes a test
unfoldable pub all_chars : (ℕ → Bool) → String → Bool
all_chars p [] = true
all_chars p (c ∷ s) = p (code c) && all_chars p s

unfoldable pub starts_with : String → String → Bool
starts_with s [] = true
starts_with [] (d ∷ p) = false
starts_with (c ∷ s) (d ∷ p) = eqb (code c) (code d) && starts_with s p

unfoldable pub ends_with : String → String → Bool
ends_with [] p = [] == p
ends_with (c ∷ s) p = (c ∷ s) == p || ends_with s p

-- s[n:]
unfoldable pub drop : ℕ → String → String
drop zero s = s
drop (suc n) [] = []
drop (suc n) (c ∷ s) = drop n s

-- s[:n]
unfoldable pub take : ℕ → String → String
take zero s = []
take (suc n) [] = []
take (suc n) (c ∷ s) = c ∷ take n s

-- len(s)
unfoldable pub text_length : String → ℕ
text_length [] = 0
text_length (c ∷ s) = suc (text_length s)

-- str.join
unfoldable pub join : String → List String → String
join sep [] = []
join sep (s ∷ []) = s
join sep (s ∷ t ∷ rest) = append s (append sep (join sep (t ∷ rest)))
