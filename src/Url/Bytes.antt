-- ===== src/Url/Bytes.antt =====
-- Cleaning a path invents no bytes.
use billy.Base.{
  ℕ, ◌==◌, true, List, [], ◌∷◌, All, All-append, All-reverse_aux, arith, Bool-cases, inl, inr,
}
use billy.Url.Clean.{onto_first, split_slash, clean_rooted, join_rooted, resolve, resolve_all}
use billy.Url.Cleaned.{segments}
use billy.Url.Escaping.{IsByte}

abbrev pub AreBytes : List ℕ → Type 0
AreBytes = All IsByte

split_slash-bytes : (s : List ℕ) → AreBytes s → All AreBytes (split_slash s)
unfolding split_slash onto_first
split_slash-bytes [] h = (tt, tt)
split_slash-bytes (c ∷ s) (b, h) = elim (Bool-cases (c == b'/')) [
  | inl e ↦ rw e (tt, split_slash-bytes s h)
  | inr e ↦ rw e (first (split_slash s) (split_slash-bytes s h))
]
  where
    first : (parts : List (List ℕ)) → All AreBytes parts → All AreBytes (onto_first c parts)
    first [] k = ((b, tt), tt)
    first (part ∷ parts) (p, k) = ((b, p), k)

resolve-bytes :
    (stack : List (List ℕ)) (part : List ℕ)
    → All AreBytes stack
    → AreBytes part
    → All AreBytes (resolve true stack part)
unfolding resolve
resolve-bytes [] [] h p = tt
resolve-bytes (top ∷ stack) [] h p = h
resolve-bytes [] (c ∷ part) h p = ground arith
resolve-bytes (top ∷ stack) (c ∷ part) h p = ground arith

resolve_all-bytes :
    (stack parts : List (List ℕ))
    → All AreBytes stack
    → All AreBytes parts
    → All AreBytes (resolve_all true stack parts)
unfolding resolve_all
resolve_all-bytes stack [] h _ = All-reverse_aux AreBytes stack [] h tt
resolve_all-bytes stack (part ∷ parts) h (p, k) =
    resolve_all-bytes (resolve true stack part) parts (resolve-bytes stack part h p) k

join_rooted-bytes : (parts : List (List ℕ)) → All AreBytes parts → AreBytes (join_rooted parts)
unfolding join_rooted
join_rooted-bytes [] h = tt
join_rooted-bytes (part ∷ parts) (p, h) =
    (omega arith, All-append IsByte part (join_rooted parts) p (join_rooted-bytes parts h))

clean_rooted-bytes : (parts : List (List ℕ)) → All AreBytes parts → AreBytes (clean_rooted parts)
unfolding clean_rooted
clean_rooted-bytes [] h = (omega arith, tt)
clean_rooted-bytes (part ∷ parts) h = join_rooted-bytes (part ∷ parts) h

pub clean_rooted-segments-bytes :
    (path : List ℕ) → AreBytes path → AreBytes (clean_rooted (segments path))
clean_rooted-segments-bytes path h = clean_rooted-bytes (segments path) (bytes path h)
  where
    bytes : (path : List ℕ) → AreBytes path → All AreBytes (segments path)
    bytes [] h = unfold segments in tt
    bytes (c ∷ s) (_, h) = elim (Bool-cases (c == b'/')) [
      | inl e ↦
          unfold segments in rw e (resolve_all-bytes [] (split_slash s) tt (split_slash-bytes s h))
      | inr e ↦ unfold segments in rw e tt
    ]
