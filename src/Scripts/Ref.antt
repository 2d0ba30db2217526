-- ===== src/Scripts/Ref.antt =====
-- adapter/scriptstore/ref.py: parse_ref.
pub mod Segments
use Prim.Native.Char.{code}
use Prim.Native.String.{[], ◌∷◌}
use image_adapter.Base.{
  ℕ, zero, suc, String, Bool, true, false, not, ◌&&◌, ◌||◌, Option, none, some, List, [], ◌∷◌, leb,
  ltb, eqb, all, length, is_empty, if◌then◌else◌,
}
use image_adapter.Text.{blank, append, split, partition, Parts}
use image_adapter.Errors.{Result, ok, err, script_source_error}

abbrev pub max_segments : ℕ
max_segments = 4

-- [A-Za-z0-9]
abbrev pub is_alnum : ℕ → Bool
is_alnum c = (leb 48 c && leb c 57) || (leb 65 c && leb c 90) || (leb 97 c && leb c 122)

-- [A-Za-z0-9_.-]
abbrev pub is_ref_char : ℕ → Bool
is_ref_char c = is_alnum c || eqb c 95 || eqb c 46 || eqb c 45

-- [A-Za-z0-9_.-]{0,n}$ at a position: `$` also stands before a newline that ends the text
unfoldable pub matches_rest : ℕ → String → Bool
matches_rest n [] = true
matches_rest zero (c ∷ s) = eqb (code c) 10 && blank s
matches_rest (suc n) (c ∷ s) =
    (eqb (code c) 10 && blank s) || (is_ref_char (code c) && matches_rest n s)

-- REF_PATTERN.match
unfoldable pub matches_ref : String → Bool
unfolding matches_rest
matches_ref [] = false
matches_ref (c ∷ s) = is_alnum (code c) && matches_rest 63 s

pub record ParsedRef : Type 0 where
  pub raw : String
  pub parts : List String
  pub version : Option String

-- [p for p in body.split("/") if p]
abbrev pub written_segments : List String → List String
written_segments [] = []
written_segments (p ∷ ps) = if blank p then written_segments ps else p ∷ written_segments ps

-- `.` and `..` do not match
unfoldable pub check_ref : String → List String → Bool → String → Result ParsedRef
unfolding matches_ref
check_ref raw parts sep version =
    if is_empty parts || ltb max_segments (length parts)
    then err (script_source_error "script_source_error")
    else if sep && blank version
    then err (script_source_error "script_source_error")
    else if not (all matches_ref parts && (blank version || matches_ref version))
    then err (script_source_error "script_source_error")
    else ok (record {
      raw = raw;
      parts = parts;
      version = if blank version then none else some version;
    })

unfoldable pub parse_ref : String → Result ParsedRef
unfolding partition split check_ref
parse_ref ref =
    let halves = partition b'@' ref in
    check_ref ref (written_segments (split b'/' halves.head)) halves.found halves.tail
