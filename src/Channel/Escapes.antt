-- ===== src/Channel/Escapes.antt =====
-- The escapes of an inline script.
use Prim.Native.Char.{Char, code}
use Prim.Native.String.{[], ◌∷◌}
use image_adapter.Base.{
  String, true, false, ◌≡◌, refl, arith, eqb, if◌then◌else◌, inl, inr, Bool-cases,
}
use mathlib.Core.Path.{ap₂}
use image_adapter.Channel.{unescape_inline}
use text.Mathlib.TextEquality.{Char-path}

-- How the control plane writes a script on one line: a line break, a tab, a carriage return and a
-- backslash become two characters each.
unfoldable pub escape_inline : String → String
escape_inline [] = []
escape_inline (c ∷ s) =
    let rest = escape_inline s in
    if eqb (code c) 10
    then "\\" ∷ "n" ∷ rest
    else if eqb (code c) 9
    then "\\" ∷ "t" ∷ rest
    else if eqb (code c) 13
    then "\\" ∷ "r" ∷ rest
    else if eqb (code c) 92
    then "\\" ∷ "\\" ∷ rest
    else c ∷ rest

unescape_inline-plain :
    (c : Char) (s : String)
    → eqb (code c) 92 ≡ false
    → unescape_inline (c ∷ s) ≡ c ∷ unescape_inline s
unfolding unescape_inline
unescape_inline-plain c [] h = refl
unescape_inline-plain c (d ∷ s) h = rw h

char_of_code : (c d : Char) → eqb (code c) (code d) ≡ true → d ≡ c
char_of_code c d h = Char-path d c (ground arith)

restored :
    (c : Char) (s : String) (d : Char)
    → eqb (code c) (code d) ≡ true
    → unescape_inline (escape_inline s) ≡ s
    → (d ∷ unescape_inline (escape_inline s)) ≡ c ∷ s
restored c s d h ih = ap₂ (λ (x : Char) (t : String). x ∷ t) (char_of_code c d h) ih

-- A script survives the trip through a header: escaped and unescaped, it is what it was.
unescape_inline-escape_inline : (s : String) → unescape_inline (escape_inline s) ≡ s
unfolding escape_inline unescape_inline
unescape_inline-escape_inline [] = refl
unescape_inline-escape_inline (c ∷ s) =
    let ih = unescape_inline-escape_inline s in
    elim (Bool-cases (eqb (code c) 10)) [
      | inl line ↦ rw line (restored c s "\n" line ih)
      | inr e1 ↦ elim (Bool-cases (eqb (code c) 9)) [
        | inl tab ↦ rw (e1, tab) (restored c s "\t" tab ih)
        | inr e2 ↦ elim (Bool-cases (eqb (code c) 13)) [
          | inl return ↦ rw (e1, e2, return) (restored c s "\r" return ih)
          | inr e3 ↦ elim (Bool-cases (eqb (code c) 92)) [
            | inl back ↦ rw (e1, e2, e3, back) (restored c s "\\" back ih)
            | inr e4 ↦ rw (e1, e2, e3, e4) (rw (unescape_inline-plain c (escape_inline s) e4, ih))
          ]
        ]
      ]
    ]
