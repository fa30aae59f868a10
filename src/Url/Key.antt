-- ===== src/Url/Key.antt =====
-- The canonical URL as the place of a fetch and as the key of the cache.
use billy.Base.{
  ℕ, has_prefix, has_prefix-append, codes, true, List, [], ◌∷◌, ◌++◌, if◌then◌else◌, is_empty, ◌≡◌,
  ◌↔◌, All, ap, refl, sym, ◌∙◌, bytes_eq, inl,
}
use mathlib.Core.Path.{subst, ap₂}
use billy.Errors.{Result, ok, err, Foreign}
use billy.Url.Clean.{clean_rooted, join_rooted, resolve_all, split_slash, resolve}
use billy.Url.Escape.{escape, path_should_escape, host_should_escape}
use billy.Url.Host.{equal_fold, split_host_port}
use billy.Url.Normalize.{
  Url, url_string, canonical_url, hostname, port, normalize_parsed, normalize_cert_chain_url,
}
use billy.Url.Segments.{IsPlain, split_slash-join_rooted}
use billy.Url.Resolve.{resolve_all_of_IsPlain}
use billy.Url.Separator.{IsTail, Free, cut_unique}
use billy.Url.Cleaned.{segments, segments-IsPlain}
use billy.Url.Escaping.{escape-Free, escape_injective}
use billy.Url.Bytes.{AreBytes, clean_rooted-segments-bytes}
use billy.Url.Under.{IsUnder}
use billy.Url.Accept.{Addressed, canonical_form, normalize_parsed-eq-ok_iff}

abbrev pub fetch_prefix : List ℕ
fetch_prefix = codes "https://s3.amazonaws.com/echo.api/"

canonical_form_prefix :
    (u : Url) → IsUnder (segments u.path) → has_prefix (canonical_form u) fetch_prefix ≡ true
unfolding canonical_form url_string canonical_url escape path_should_escape host_should_escape
    clean_rooted join_rooted
canonical_form_prefix u under = rw under.elements (has_prefix-append fetch_prefix _)

parsed_of_ok :
    (parse : List ℕ → Result Foreign Url) (raw c : List ℕ)
    → normalize_cert_chain_url parse raw ≡ ok c
    → (u : Url) × (parse raw ≡ ok u) × (normalize_parsed u ≡ ok c)
unfolding normalize_cert_chain_url
parsed_of_ok parse raw c h = go (parse raw) refl
  where
    go :
        (r : Result Foreign Url)
        → parse raw ≡ r
        → (u : Url) × (parse raw ≡ ok u) × (normalize_parsed u ≡ ok c)
    go (ok u) e = (u, e, rw (e, normalize_cert_chain_url) at h)
    go (err n) e = cc (rw (e, normalize_cert_chain_url) at h)

-- Whatever `url.Parse` makes of the header, an accepted URL is fetched over https from
-- s3.amazonaws.com, below /echo.api/.
pub normalize_cert_chain_url-has_prefix :
    (parse : List ℕ → Result Foreign Url) (raw c : List ℕ)
    → normalize_cert_chain_url parse raw ≡ ok c
    → has_prefix c fetch_prefix ≡ true
normalize_cert_chain_url-has_prefix parse raw c h =
    let (u, _, e) = parsed_of_ok parse raw c h in
    let (_, under, same) = (normalize_parsed-eq-ok_iff u c).0 e in
    rw same (canonical_form_prefix u under)

segments-clean_rooted :
    (parts : List (List ℕ)) → All IsPlain parts → segments (clean_rooted parts) ≡ parts
unfolding segments clean_rooted join_rooted
segments-clean_rooted [] h = unfold resolve_all split_slash resolve in refl
segments-clean_rooted (part ∷ parts) (p, h) =
    ap (resolve_all true []) (split_slash-join_rooted part parts p.no_slash (slashless parts h))
    ∙ resolve_all_of_IsPlain true [] (part ∷ parts) (p, h)
  where
    slashless : (parts : List (List ℕ)) → All IsPlain parts → All (Free b'/') parts
    slashless [] h = tt
    slashless (q ∷ qs) (k, h) = (k.no_slash, slashless qs h)

canonical-Addressed : (path raw_query : List ℕ) → Addressed (canonical_url path raw_query)
unfolding canonical_url hostname port split_host_port equal_fold bytes_eq
canonical-Addressed path raw_query = record {
  scheme = refl;
  user = refl;
  host = refl;
  port = inl refl;
}

normalize_canonical :
    (parts : List (List ℕ)) (raw_query : List ℕ)
    → All IsPlain parts
    → IsUnder parts
    → normalize_parsed (canonical_url (clean_rooted parts) raw_query)
      ≡ ok (url_string (canonical_url (clean_rooted parts) raw_query))
normalize_canonical parts raw_query plain under =
    let v = canonical_url (clean_rooted parts) raw_query in
    let same : segments (clean_rooted parts) ≡ parts = segments-clean_rooted parts plain in
    (normalize_parsed-eq-ok_iff v _).1
      (canonical-Addressed (clean_rooted parts) raw_query, below same, sym (form same))
  where
    below :
        segments (clean_rooted parts) ≡ parts
        → IsUnder (segments (canonical_url (clean_rooted parts) raw_query).path)
    below same = unfold canonical_url in subst IsUnder (sym same) under

    form :
        segments (clean_rooted parts) ≡ parts
        → canonical_form (canonical_url (clean_rooted parts) raw_query)
          ≡ url_string (canonical_url (clean_rooted parts) raw_query)
    form same =
        unfold canonical_form canonical_url in
        ap (λ ps. url_string (canonical_url (clean_rooted ps) raw_query)) same

-- Normalising the canonical form of an accepted URL gives that form again, if `url.Parse` reads its
-- text back to the parts that it was built from.
pub normalize_cert_chain_url_idempotent :
    (parse : List ℕ → Result Foreign Url) (raw c : List ℕ) (u : Url)
    → parse raw ≡ ok u
    → normalize_cert_chain_url parse raw ≡ ok c
    → parse c ≡ ok (canonical_url (clean_rooted (segments u.path)) u.raw_query)
    → normalize_cert_chain_url parse c ≡ ok c
unfolding normalize_cert_chain_url
normalize_cert_chain_url_idempotent parse raw c u p h back =
    let e : normalize_parsed u ≡ ok c = rw (p, normalize_cert_chain_url) at h in
    let (_, under, same) = (normalize_parsed-eq-ok_iff u c).0 e in
    rw (back, normalize_cert_chain_url)
      (normalize_canonical (segments u.path) u.raw_query (segments-IsPlain u.path) under
        ∙ ap ok (sym (unfold canonical_form in same)))

query_tail : List ℕ → List ℕ
query_tail raw_query = if is_empty raw_query then [] else b'?' ∷ raw_query

query_tail-IsTail : (q : List ℕ) → IsTail b'?' (query_tail q)
unfolding query_tail
query_tail-IsTail [] = IsTail.nothing
query_tail-IsTail (c ∷ q) = IsTail.more (c ∷ q)

query_tail_injective : (q r : List ℕ) → query_tail q ≡ query_tail r → q ≡ r
unfolding query_tail
query_tail_injective [] [] e = refl
query_tail_injective [] (d ∷ r) e = cc
query_tail_injective (c ∷ q) [] e = cc
query_tail_injective (c ∷ q) (d ∷ r) e = cc

drop_prefix : (x : List ℕ) {y z : List ℕ} → x ++ y ≡ x ++ z → y ≡ z
drop_prefix [] e = e
drop_prefix (c ∷ x) e = drop_prefix x (cc)

canonical_cut :
    (p q p' q' : List ℕ)
    → AreBytes p
    → AreBytes p'
    → url_string (canonical_url p q) ≡ url_string (canonical_url p' q')
    → (p ≡ p') × (q ≡ q')
unfolding url_string canonical_url query_tail escape host_should_escape
canonical_cut p q p' q' h k e =
    let (paths, queries) =
      cut_unique b'?' (escape path_should_escape p) (escape path_should_escape p') (escape-Free p)
        (escape-Free p') (query_tail-IsTail q) (query_tail-IsTail q')
        (drop_prefix (codes "https://s3.amazonaws.com") e) in
    (escape_injective p p' h k paths, query_tail_injective q q' queries)

-- Two accepted URLs share a cache key exactly when their cleaned paths and their queries are equal.
pub canonical_form-eq_iff :
    (u v : Url)
    → AreBytes u.path
    → AreBytes v.path
    → (canonical_form u ≡ canonical_form v) ↔ (
        (clean_rooted (segments u.path) ≡ clean_rooted (segments v.path))
        × (u.raw_query ≡ v.raw_query))
unfolding canonical_form
canonical_form-eq_iff u v h k = (
  canonical_cut _ _ _ _ (clean_rooted-segments-bytes u.path h)
      (clean_rooted-segments-bytes v.path k),
  λ e. ap₂ (λ p q. url_string (canonical_url p q)) e.0 e.1,
)
