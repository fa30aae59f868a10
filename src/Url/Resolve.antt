-- ===== src/Url/Resolve.antt =====
-- Cleaning a rooted path leaves plain elements only, and leaves plain elements alone.
use billy.Base.{
  ℕ, bytes_eq, bytes_eq_iff, Bool, true, false, ◌≡◌, ◌≢◌, refl, sym, List, [], ◌∷◌, ◌++◌, All,
  All-reverse_aux, arith, Bool-cases, inl, inr,
}
use mathlib.Core.List.{reverse, reverse-cons, append_assoc, append-nil}
use billy.Url.Clean.{dot, dot_dot, back, resolve, resolve_all}
use billy.Url.Segments.{NoSlash, IsPlain}

resolve-IsPlain :
    (stack : List (List ℕ)) (part : List ℕ)
    → All IsPlain stack
    → NoSlash part
    → All IsPlain (resolve true stack part)
unfolding resolve
resolve-IsPlain [] [] h p = tt
resolve-IsPlain (top ∷ stack) [] h p = h
resolve-IsPlain [] (c ∷ part) h p =
    ground (arith, bytes_eq_iff (c ∷ part) dot, bytes_eq_iff (c ∷ part) dot_dot)
resolve-IsPlain (top ∷ stack) (c ∷ part) (t, h) p =
    ground (arith, bytes_eq_iff (c ∷ part) dot, bytes_eq_iff (c ∷ part) dot_dot)

pub resolve_all-IsPlain :
    (stack parts : List (List ℕ))
    → All IsPlain stack
    → All NoSlash parts
    → All IsPlain (resolve_all true stack parts)
unfolding resolve_all
resolve_all-IsPlain stack [] h _ = All-reverse_aux IsPlain stack [] h tt
resolve_all-IsPlain stack (part ∷ parts) h (p, k) =
    resolve_all-IsPlain (resolve true stack part) parts (resolve-IsPlain stack part h p) k

resolve_of_IsPlain :
    (rooted : Bool) (stack : List (List ℕ)) (part : List ℕ)
    → IsPlain part
    → resolve rooted stack part ≡ part ∷ stack
unfolding resolve
resolve_of_IsPlain rooted stack [] h = absurd (h.not_empty refl)
resolve_of_IsPlain rooted stack (c ∷ part) h =
    ground (arith, bytes_eq_iff (c ∷ part) dot, bytes_eq_iff (c ∷ part) dot_dot)

pub resolve_all_of_IsPlain :
    (rooted : Bool) (stack parts : List (List ℕ))
    → All IsPlain parts
    → resolve_all rooted stack parts ≡ reverse stack ++ parts
unfolding resolve_all
resolve_all_of_IsPlain rooted stack [] _ = sym (append-nil _)
resolve_all_of_IsPlain rooted stack (part ∷ parts) (p, h) =
    rw
      (resolve_of_IsPlain rooted stack part p, resolve_all_of_IsPlain rooted (part ∷ stack) parts h)
      (simp (reverse-cons, append_assoc))

-- An element of a cleaned relative path: it may be `..`.
pub record IsNamed (part : List ℕ) : Type 0 where
  pub no_slash : NoSlash part
  pub not_empty : part ≢ []

back-IsNamed : (stack : List (List ℕ)) → All IsNamed stack → All IsNamed (back false stack)
unfolding back
back-IsNamed [] h = (record { no_slash = (omega arith, (omega arith, tt)); not_empty = cc }, tt)
back-IsNamed (top ∷ stack) (t, h) = elim (Bool-cases (bytes_eq top dot_dot)) [
  | inl e ↦ rw e (record { no_slash = (omega arith, (omega arith, tt)); not_empty = cc }, (t, h))
  | inr e ↦ rw e h
]

resolve-IsNamed :
    (stack : List (List ℕ)) (part : List ℕ)
    → All IsNamed stack
    → NoSlash part
    → All IsNamed (resolve false stack part)
unfolding resolve
resolve-IsNamed stack [] h p = h
resolve-IsNamed stack (c ∷ part) h p = elim (Bool-cases (bytes_eq (c ∷ part) dot)) [
  | inl e ↦ rw e h
  | inr e ↦ rw e (elim (Bool-cases (bytes_eq (c ∷ part) dot_dot)) [
    | inl e' ↦ rw e' (back-IsNamed stack h)
    | inr e' ↦ rw e' (record { no_slash = p; not_empty = cc }, h)
  ])
]

pub resolve_all-IsNamed :
    (stack parts : List (List ℕ))
    → All IsNamed stack
    → All NoSlash parts
    → All IsNamed (resolve_all false stack parts)
unfolding resolve_all
resolve_all-IsNamed stack [] h _ = All-reverse_aux IsNamed stack [] h tt
resolve_all-IsNamed stack (part ∷ parts) h (p, k) =
    resolve_all-IsNamed (resolve false stack part) parts (resolve-IsNamed stack part h p) k
