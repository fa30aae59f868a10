-- ===== src/Url/Under.antt =====
-- The prefix test on a cleaned path reads its elements: the first is `echo.api`, and one follows.
use billy.Base.{
  ℕ, codes, true, ◌≡◌, ap, List, [], ◌∷◌, ◌++◌, All, arith, has_prefix, append_of_has_prefix,
  has_prefix-append, ◌↔◌,
}
use billy.Url.Clean.{clean_rooted, join_rooted}
use billy.Url.Normalize.{cleaned_path, valid_cert_path_prefix}
use billy.Url.Segments.{NoSlash, IsPlain}
use billy.Url.Separator.{IsTail, cut_unique}
use billy.Url.Cleaned.{segments, segments-IsPlain, cleaned_path-segments}

abbrev pub echo_api : List ℕ
echo_api = codes "echo.api"

pub record IsUnder (parts : List (List ℕ)) : Type 0 where
  pub object : List ℕ
  pub more : List (List ℕ)
  pub elements : parts ≡ echo_api ∷ object ∷ more

join_rooted-IsTail : (parts : List (List ℕ)) → IsTail b'/' (join_rooted parts)
unfolding join_rooted
join_rooted-IsTail [] = IsTail.nothing
join_rooted-IsTail (part ∷ parts) = IsTail.more _

echo_api-NoSlash : NoSlash echo_api
echo_api-NoSlash = omega arith

-- The first element, and the rest of the path, from the text of the path.
first_element :
    (part : List ℕ) (parts : List (List ℕ)) (rest : List ℕ)
    → NoSlash part
    → clean_rooted (part ∷ parts) ≡ valid_cert_path_prefix ++ rest
    → (part ≡ echo_api) × (join_rooted parts ≡ b'/' ∷ rest)
unfolding clean_rooted join_rooted
first_element part parts rest p e =
    cut_unique b'/' part echo_api p echo_api-NoSlash (join_rooted-IsTail parts) (IsTail.more rest)
      (cc)

IsUnder-of_has_prefix :
    (parts : List (List ℕ))
    → All IsPlain parts
    → has_prefix (clean_rooted parts) valid_cert_path_prefix ≡ true
    → IsUnder parts
unfolding clean_rooted join_rooted
IsUnder-of_has_prefix [] h e = absurd (unfold has_prefix in cc)
IsUnder-of_has_prefix (part ∷ []) (p, h) e =
    let (rest, at) = append_of_has_prefix _ valid_cert_path_prefix e in
    absurd (cc ((first_element part [] rest p.no_slash at).1))
IsUnder-of_has_prefix (part ∷ object ∷ more) (p, h) e =
    let (rest, at) = append_of_has_prefix _ valid_cert_path_prefix e in
    let (same, _) = first_element part (object ∷ more) rest p.no_slash at in
    record { object = object; more = more; elements = ap (λ s. s ∷ object ∷ more) same }

has_prefix_of_IsUnder :
    (parts : List (List ℕ))
    → IsUnder parts
    → has_prefix (clean_rooted parts) valid_cert_path_prefix ≡ true
unfolding clean_rooted
has_prefix_of_IsUnder parts u = rw u.elements (under (u.object ++ join_rooted u.more))
  where
    under :
        (rest : List ℕ) → has_prefix (valid_cert_path_prefix ++ rest) valid_cert_path_prefix ≡ true
    under rest = has_prefix-append valid_cert_path_prefix rest

pub has_prefix_iff :
    (path : List ℕ)
    → (has_prefix (cleaned_path path) valid_cert_path_prefix ≡ true) ↔ IsUnder (segments path)
has_prefix_iff path = rw (cleaned_path-segments path) (
  IsUnder-of_has_prefix (segments path) (segments-IsPlain path),
  has_prefix_of_IsUnder (segments path),
)
