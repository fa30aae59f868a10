-- ===== src/Url/Escape.antt =====
-- `escape` and `unescape` of net/url, in the modes that `URL.String` uses for a host and a path.
use billy.Base.{
  ℕ, ◌+◌, ◌-◌, ◌*◌, ◌/◌, ◌%◌, ◌==◌, leb, ltb, codes, Bool, true, false, not, ◌&&◌, ◌||◌, List, [],
  ◌∷◌, if◌then◌else◌, any, Option, none, some,
}

abbrev pub is_digit : ℕ → Bool
is_digit c = leb b'0' c && leb c b'9'

abbrev pub is_alnum : ℕ → Bool
is_alnum c = leb b'a' c && leb c b'z' || leb b'A' c && leb c b'Z' || is_digit c

abbrev pub one_of : List ℕ → ℕ → Bool
one_of set c = any (λ x. c == x) set

-- `shouldEscape(c, encodePath)`
unfoldable pub path_should_escape : ℕ → Bool
path_should_escape c =
    if is_alnum c || one_of (codes "-_.~") c
    then false
    else if one_of (codes "$&+,/:;=?@") c
    then c == b'?'
    else true

-- `shouldEscape(c, encodeHost)`
unfoldable pub host_should_escape : ℕ → Bool
host_should_escape c =
    not (is_alnum c || one_of (codes "!$&'()*+,;=:[]<>\"") c || one_of (codes "-_.~") c)

unfoldable pub hex_digit : ℕ → ℕ
hex_digit n = if ltb n 10 then b'0' + n else b'A' + n - 10

unfoldable pub escape : (ℕ → Bool) → List ℕ → List ℕ
escape should_escape [] = []
escape should_escape (c ∷ s) =
    let rest = escape should_escape s in
    if should_escape c then b'%' ∷ hex_digit (c / 16) ∷ hex_digit (c % 16) ∷ rest else c ∷ rest

unfoldable pub unhex : ℕ → Option ℕ
unhex c =
    if is_digit c
    then some (c - b'0')
    else if leb b'a' c && leb c b'f'
    then some (c - b'a' + 10)
    else if leb b'A' c && leb c b'F'
    then some (c - b'A' + 10)
    else none

-- What `unescape` does with a `%`, given the two bytes and the rest decoded.
unfoldable pub unescape_byte : Option ℕ → Option ℕ → Option (List ℕ) → Option (List ℕ)
unescape_byte (some hi) (some lo) (some rest) = some ((16 * hi + lo) ∷ rest)
unescape_byte (some hi) (some lo) none = none
unescape_byte (some hi) none rest = none
unescape_byte none lo rest = none

unfoldable pub keep_byte : ℕ → Option (List ℕ) → Option (List ℕ)
keep_byte c none = none
keep_byte c (some rest) = some (c ∷ rest)

-- `unescape(s, encodePath)`; none is an `EscapeError`.
unfoldable pub unescape : List ℕ → Option (List ℕ)
unfolding unhex unescape_byte keep_byte
unescape [] = some []
unescape (c ∷ []) = if c == b'%' then none else some (c ∷ [])
unescape (c ∷ d ∷ []) = let rest = unescape (d ∷ []) in if c == b'%' then none else keep_byte c rest
unescape (c ∷ d ∷ e ∷ s) =
    let coded = unescape s in
    let rest = unescape (d ∷ e ∷ s) in
    if c == b'%' then unescape_byte (unhex d) (unhex e) coded else keep_byte c rest
