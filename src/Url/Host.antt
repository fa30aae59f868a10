-- ===== src/Url/Host.antt =====
-- `URL.Hostname`, `URL.Port` and `strings.EqualFold` against a text of ASCII characters.
use billy.Base.{
  ℕ, ◌+◌, ◌==◌, leb, bytes_eq, Bool, ◌&&◌, List, [], ◌∷◌, if◌then◌else◌, all, Option, none, some,
  map,
}
use billy.Url.Escape.{is_digit}

-- The texts before and after the last colon.
unfoldable pub split_last_colon : List ℕ → Option (List ℕ × List ℕ)
split_last_colon [] = none
split_last_colon (c ∷ s) = elim (split_last_colon s) [
  | some (before, after) ↦ some (c ∷ before, after)
  | none ↦ if c == b':' then some ([], s) else none
]

-- The text without a closing bracket at its end.
unfoldable pub strip_close : List ℕ → Option (List ℕ)
strip_close [] = none
strip_close (c ∷ []) = if c == b']' then some [] else none
strip_close (c ∷ d ∷ s) = elim (strip_close (d ∷ s)) [ some r ↦ some (c ∷ r) | none ↦ none ]

unfoldable pub strip_brackets : List ℕ → List ℕ
unfolding strip_close
strip_brackets [] = []
strip_brackets (c ∷ s) =
    if c == b'[' then elim (strip_close s) [ some r ↦ r | none ↦ c ∷ s ] else c ∷ s

-- `splitHostPort`: a port is split off only if it is empty or all digits.
unfoldable pub split_host_port : List ℕ → List ℕ × List ℕ
unfolding strip_brackets split_last_colon
split_host_port hostport = elim (split_last_colon hostport) [
  | some (host, port) ↦
      if all is_digit port then (strip_brackets host, port) else (strip_brackets hostport, [])
  | none ↦ (strip_brackets hostport, [])
]

-- The smallest member of a code point's case-folding orbit that is a lower-case ASCII letter, if the
-- orbit has one: the Kelvin sign folds to `k`, and the long s to `s`.
unfoldable pub fold : ℕ → ℕ
fold c =
    if leb b'A' c && leb c b'Z'
    then c + 32
    else if c == 0x212a
    then b'k'
    else if c == 0x17f
    then b's'
    else c

-- `strings.EqualFold(s, t)`, exact where `t` is ASCII.
unfoldable pub equal_fold : List ℕ → List ℕ → Bool
unfolding fold
equal_fold s t = bytes_eq (map fold s) (map fold t)
