-- ===== src/Url.antt =====
-- `urllib.parse` as the adapter uses it: `urlparse` for the scheme, the hostname and the query, and
-- `urlunparse`. A text with one unmatched bracket in the host part raises ValueError (`none`). The
-- check of what stands between two brackets, and of non-ASCII hosts, is left out, and `;params`
-- stay with the path.
use Prim.Native.Char.{Char, code}
use Prim.Native.String.{[], ◌∷◌}
use Prim.Native.Nat.{◌/◌, ◌%◌}
use image_adapter.Base.{
  ℕ, ◌+◌, List, [], ◌∷◌, ltb, Assoc, String, Bool, false, not, ◌&&◌, ◌||◌, Option, none, some, leb,
  eqb, if◌then◌else◌,
}
use image_adapter.Text.{
  append, blank, lower, partition, has_char, all_chars, starts_with, drop, nth,
}

pub record ParsedUrl : Type 0 where
  pub scheme : String
  pub netloc : String
  pub path : String
  pub query : String
  pub fragment : String

is_alpha : ℕ → Bool
is_alpha c = (leb 65 c && leb c 90) || (leb 97 c && leb c 122)

is_scheme_char : ℕ → Bool
unfolding is_alpha
is_scheme_char c = is_alpha c || (leb 48 c && leb c 57) || eqb c b'+' || eqb c b'-' || eqb c b'.'

starts_alpha : String → Bool
unfolding is_alpha
starts_alpha [] = false
starts_alpha (c ∷ s) = is_alpha (code c)

-- leading control characters and spaces are dropped
lstrip_control : String → String
lstrip_control [] = []
lstrip_control (c ∷ s) = if leb (code c) 32 then lstrip_control s else c ∷ s

-- tabs and line breaks are dropped wherever they stand
drop_breaks : String → String
drop_breaks [] = []
drop_breaks (c ∷ s) =
    let rest = drop_breaks s in
    if eqb (code c) 9 || eqb (code c) 10 || eqb (code c) 13 then rest else c ∷ rest

-- the host part ends before the first `/`, `?` or `#`
host_part : String → String
host_part [] = []
host_part (c ∷ s) =
    if eqb (code c) b'/' || eqb (code c) b'?' || eqb (code c) b'#' then [] else c ∷ host_part s

after_host_part : String → String
after_host_part [] = []
after_host_part (c ∷ s) =
    if eqb (code c) b'/' || eqb (code c) b'?' || eqb (code c) b'#' then c ∷ s else after_host_part s

split_rest : String → String → String → ParsedUrl
split_rest scheme netloc rest =
    let hashed = partition b'#' rest in
    let queried = partition b'?' hashed.head in
    record {
      scheme = scheme;
      netloc = netloc;
      path = queried.head;
      query = queried.tail;
      fragment = hashed.tail;
    }

split_netloc : String → String → Option ParsedUrl
unfolding split_rest host_part after_host_part
split_netloc scheme rest =
    let netloc = host_part (drop 2 rest) in
    if not (starts_with rest "//")
    then some (split_rest scheme "" rest)
    else if (has_char b'[' netloc && not (has_char b']' netloc))
        || (has_char b']' netloc && not (has_char b'[' netloc))
    then none
    else some (split_rest scheme netloc (after_host_part (drop 2 rest)))

unfoldable pub urlparse : String → Option ParsedUrl
unfolding lstrip_control drop_breaks split_netloc starts_alpha is_scheme_char partition lower
    has_char all_chars starts_with drop
urlparse raw =
    let url = drop_breaks (lstrip_control raw) in
    let colon = partition b':' url in
    if colon.found && starts_alpha url && all_chars is_scheme_char colon.head
    then split_netloc (lower colon.head) colon.tail
    else split_netloc "" url

-- what follows the last `@`
after_at : String → String
after_at [] = []
after_at (c ∷ s) = if has_char b'@' s then after_at s else if eqb (code c) b'@' then s else c ∷ s

-- `urlparse(url).hostname or ""`
unfoldable pub hostname : ParsedUrl → String
unfolding after_at partition lower has_char
hostname url =
    let info = after_at url.netloc in
    let bracket = partition b'[' info in
    let host : String =
      if bracket.found then (partition b']' bracket.tail).head else (partition b':' info).head in
    let zone = partition b'%' host in
    append (lower zone.head) (if zone.found then append "%" zone.tail else "")

unfoldable pub urlunparse : ParsedUrl → String
urlunparse url =
    let rooted : String =
      if blank url.path || starts_with url.path "/" then url.path else append "/" url.path in
    let located = if blank url.netloc then url.path else append "//" (append url.netloc rooted) in
    let schemed = if blank url.scheme then located else append url.scheme (append ":" located) in
    let queried = if blank url.query then schemed else append schemed (append "?" url.query) in
    if blank url.fragment then queried else append queried (append "#" url.fragment)

hex_digit : ℕ → Char
unfolding nth
hex_digit n = nth "0123456789ABCDEF" n "0"

quote_bytes : List ℕ → String → String
unfolding hex_digit
quote_bytes [] rest = rest
quote_bytes (b ∷ bs) rest = "%" ∷ hex_digit (b / 16) ∷ hex_digit (b % 16) ∷ quote_bytes bs rest

-- the UTF-8 bytes of a code point
utf8 : ℕ → List ℕ
utf8 c =
    if ltb c 0x80
    then c ∷ []
    else if ltb c 0x800
    then (0xc0 + c / 64) ∷ (0x80 + c % 64) ∷ []
    else if ltb c 0x10000
    then (0xe0 + c / 4096) ∷ (0x80 + c / 64 % 64) ∷ (0x80 + c % 64) ∷ []
    else (0xf0 + c / 262144) ∷ (0x80 + c / 4096 % 64) ∷ (0x80 + c / 64 % 64) ∷ (0x80 + c % 64) ∷ []

is_unreserved : ℕ → Bool
unfolding is_alpha
is_unreserved c =
    is_alpha c || (leb 48 c && leb c 57) || eqb c b'_' || eqb c b'.' || eqb c b'-' || eqb c b'~'

quote_plus : String → String
unfolding quote_bytes utf8 is_unreserved
quote_plus [] = []
quote_plus (c ∷ s) =
    let rest = quote_plus s in
    if is_unreserved (code c)
    then c ∷ rest
    else if eqb (code c) 32
    then "+" ∷ rest
    else quote_bytes (utf8 (code c)) rest

-- urlencode(query)
unfoldable pub urlencode : Assoc String → String
unfolding quote_plus
urlencode [] = ""
urlencode ((k, v) ∷ []) = append (quote_plus k) (append "=" (quote_plus v))
urlencode ((k, v) ∷ next ∷ rest) =
    append (quote_plus k)
      (append "=" (append (quote_plus v) (append "&" (urlencode (next ∷ rest)))))
