-- ===== src/Trim.antt =====
-- `bytes.TrimSpace`: the white space of Unicode, as UTF-8, at both ends of a byte sequence.
use billy.Base.{
  ℕ, ◌≤◌, ◌+◌, ◌==◌, leb, List, [], ◌∷◌, length, Bool, ◌&&◌, ◌||◌, if◌then◌else◌, arith, ◌≡◌, refl,
  codes,
}
use mathlib.Core.List.{reverse, reverse_aux}

unfoldable pub ascii_space : ℕ → Bool
ascii_space c = leb 9 c && leb c 13 || c == 32

-- U+0085 and U+00A0
unfoldable pub two_byte_space : ℕ → ℕ → Bool
two_byte_space c d = c == 0xc2 && (d == 0x85 || d == 0xa0)

-- U+1680, U+2000 to U+200A, U+2028, U+2029, U+202F, U+205F and U+3000
unfoldable pub three_byte_space : ℕ → ℕ → ℕ → Bool
three_byte_space c d e =
    c == 0xe1 && d == 0x9a && e == 0x80
    || c == 0xe2 && d == 0x80 && (leb 0x80 e && leb e 0x8a || e == 0xa8 || e == 0xa9 || e == 0xaf)
    || c == 0xe2 && d == 0x81 && e == 0x9f
    || c == 0xe3 && d == 0x80 && e == 0x80

-- Drops the white space at the front; the tests get the bytes in the order in which they stand.
unfoldable pub trim_front : (ℕ → ℕ → Bool) → (ℕ → ℕ → ℕ → Bool) → List ℕ → List ℕ
trim_front two three [] = []
trim_front two three (c ∷ []) = if ascii_space c then [] else c ∷ []
trim_front two three (c ∷ d ∷ []) =
    let one_off = trim_front two three (d ∷ []) in
    if ascii_space c then one_off else if two c d then [] else c ∷ d ∷ []
trim_front two three (c ∷ d ∷ e ∷ s) =
    let one_off = trim_front two three (d ∷ e ∷ s) in
    let two_off = trim_front two three (e ∷ s) in
    let three_off = trim_front two three s in
    if ascii_space c
    then one_off
    else if two c d
    then two_off
    else if three c d e
    then three_off
    else c ∷ d ∷ e ∷ s

unfoldable pub trim_space : List ℕ → List ℕ
trim_space s = reverse (
    trim_front (λ d c. two_byte_space c d) (λ e d c. three_byte_space c d e)
      (reverse (trim_front two_byte_space three_byte_space s)))

length-trim_front-le :
    (two : ℕ → ℕ → Bool) (three : ℕ → ℕ → ℕ → Bool) (s : List ℕ)
    → length (trim_front two three s) ≤ length s
unfolding trim_front
length-trim_front-le two three [] = omega arith
length-trim_front-le two three (c ∷ []) = ground arith
length-trim_front-le two three (c ∷ d ∷ []) =
    ground (arith, length-trim_front-le two three (d ∷ []))
length-trim_front-le two three (c ∷ d ∷ e ∷ s) = ground (
  arith,
  length-trim_front-le two three (d ∷ e ∷ s),
  length-trim_front-le two three (e ∷ s),
  length-trim_front-le two three s,
)

length-reverse_aux : (s t : List ℕ) → length (reverse_aux s t) ≡ length s + length t
length-reverse_aux [] t = omega arith
length-reverse_aux (c ∷ s) t = omega (arith, length-reverse_aux s (c ∷ t))

length-reverse : (s : List ℕ) → length (reverse s) ≡ length s
length-reverse s = omega (arith, length-reverse_aux s [])

-- Trimming never makes a text longer.
pub length-trim_space-le : (s : List ℕ) → length (trim_space s) ≤ length s
unfolding trim_space
length-trim_space-le s = omega (
  arith,
  length-reverse _,
  length-trim_front-le two_byte_space three_byte_space s,
  length-trim_front-le _ _ (reverse (trim_front two_byte_space three_byte_space s)),
)

trim_runs : trim_space (codes " \n a b") ≡ codes "a b"
unfolding trim_space trim_front ascii_space two_byte_space three_byte_space
trim_runs = refl
