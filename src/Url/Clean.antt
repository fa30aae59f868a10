-- ===== src/Url/Clean.antt =====
-- `strings.Split(s, "/")` and `path.Clean`, on the elements of a path.
use billy.Base.{
  ℕ, ◌==◌, bytes_eq, codes, Bool, true, false, not, ◌&&◌, ◌||◌, List, [], ◌∷◌, ◌++◌, if◌then◌else◌,
  is_empty,
}
use mathlib.Core.List.{reverse}

-- Puts one more byte in front of the first element.
unfoldable pub onto_first : ℕ → List (List ℕ) → List (List ℕ)
onto_first c [] = (c ∷ []) ∷ []
onto_first c (part ∷ parts) = (c ∷ part) ∷ parts

unfoldable pub split_slash : List ℕ → List (List ℕ)
unfolding onto_first
split_slash [] = [] ∷ []
split_slash (c ∷ s) = let rest = split_slash s in if c == b'/' then [] ∷ rest else onto_first c rest

-- Every element behind a slash.
unfoldable pub join_rooted : List (List ℕ) → List ℕ
join_rooted [] = []
join_rooted (part ∷ parts) = b'/' ∷ part ++ join_rooted parts

abbrev pub dot : List ℕ
dot = codes "."

abbrev pub dot_dot : List ℕ
dot_dot = codes ".."

-- `..` takes the last element away if there is one; what it meets at the start is kept only in a
-- relative path.
unfoldable pub back : Bool → List (List ℕ) → List (List ℕ)
back rooted [] = if rooted then [] else dot_dot ∷ []
back rooted (top ∷ stack) =
    if not rooted && bytes_eq top dot_dot then dot_dot ∷ top ∷ stack else stack

-- One element of the path; the stack has the last element first.
unfoldable pub resolve : Bool → List (List ℕ) → List ℕ → List (List ℕ)
unfolding back
resolve rooted stack part =
    if is_empty part || bytes_eq part dot
    then stack
    else if bytes_eq part dot_dot
    then back rooted stack
    else part ∷ stack

unfoldable pub resolve_all : Bool → List (List ℕ) → List (List ℕ) → List (List ℕ)
unfolding resolve
resolve_all rooted stack [] = reverse stack
resolve_all rooted stack (part ∷ parts) = resolve_all rooted (resolve rooted stack part) parts

unfoldable pub clean_relative : List (List ℕ) → List ℕ
unfolding join_rooted
clean_relative [] = dot
clean_relative (part ∷ parts) = part ++ join_rooted parts

unfoldable pub clean_rooted : List (List ℕ) → List ℕ
unfolding join_rooted
clean_rooted [] = b'/' ∷ []
clean_rooted (part ∷ parts) = join_rooted (part ∷ parts)

unfoldable pub clean : List ℕ → List ℕ
clean [] = dot
clean (c ∷ s) =
    if c == b'/'
    then clean_rooted (resolve_all true [] (split_slash s))
    else clean_relative (resolve_all false [] (split_slash (c ∷ s)))
