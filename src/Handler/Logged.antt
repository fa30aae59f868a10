-- ===== src/Handler/Logged.antt =====
-- Which message a refusal is logged with.
use billy.Base.{List, [], ◌∷◌, Bool, true, false, ◌==◌, ◌||◌, if◌then◌else◌, ◌≡◌, refl}
use billy.Errors.{
  Error, Sentinel, Wrapped, WrapsOne, sentinels, identity, missing_header, cert_url_invalid,
  cert_url_userinfo, cert_url_traversal, cert_fetch, untrusted_chain, cert_hostname,
  unsupported_key, bad_signature, stale_timestamp,
}
use billy.Handler.{
  Message, wraps, failure_message, no_header, outside_tolerance, url_with_userinfo, url_escapes,
  url_invalid, not_fetched, not_trusted, wrong_domain, key_unsupported, signature_invalid,
  unspecified,
}

-- The message that each sentinel has of its own, and whether the URL goes with it.
abbrev pub message_of : Sentinel → Message × Bool
message_of missing_header = (no_header, false)
message_of stale_timestamp = (outside_tolerance, false)
message_of cert_url_userinfo = (url_with_userinfo, true)
message_of cert_url_traversal = (url_escapes, true)
message_of cert_url_invalid = (url_invalid, true)
message_of cert_fetch = (not_fetched, true)
message_of untrusted_chain = (not_trusted, true)
message_of cert_hostname = (wrong_domain, true)
message_of unsupported_key = (key_unsupported, true)
message_of bad_signature = (signature_invalid, false)

-- Whether a sentinel is among those of a list.
abbrev among : Sentinel → List Sentinel → Bool
among s [] = false
among s (t ∷ ts) = (identity s == identity t) || among s ts

wraps-among : (s : Sentinel) (e : Error) → wraps s e ≡ among s (sentinels e)
unfolding wraps
wraps-among s [] = refl
wraps-among s (Wrapped.sentinel t ∷ e) = rw (wraps-among s e)
wraps-among s (Wrapped.foreign n ∷ e) = wraps-among s e

wraps_one : (s t : Sentinel) (e : Error) → WrapsOne s e → wraps t e ≡ among t (s ∷ [])
wraps_one s t e one = rw (wraps-among t e, one)

-- The first message whose test holds, in the order of the source.
abbrev first_message : (Sentinel → Bool) → Message × Bool
first_message holds =
    if holds missing_header
    then (no_header, false)
    else if holds stale_timestamp
    then (outside_tolerance, false)
    else if holds cert_url_userinfo
    then (url_with_userinfo, true)
    else if holds cert_url_traversal
    then (url_escapes, true)
    else if holds cert_url_invalid
    then (url_invalid, true)
    else if holds cert_fetch
    then (not_fetched, true)
    else if holds untrusted_chain
    then (not_trusted, true)
    else if holds cert_hostname
    then (wrong_domain, true)
    else if holds unsupported_key
    then (key_unsupported, true)
    else if holds bad_signature
    then (signature_invalid, false)
    else (unspecified, false)

message_of_tests : (s : Sentinel) → first_message (λ t. among t (s ∷ [])) ≡ message_of s
message_of_tests missing_header = refl
message_of_tests stale_timestamp = refl
message_of_tests cert_url_userinfo = refl
message_of_tests cert_url_traversal = refl
message_of_tests cert_url_invalid = refl
message_of_tests cert_fetch = refl
message_of_tests untrusted_chain = refl
message_of_tests cert_hostname = refl
message_of_tests unsupported_key = refl
message_of_tests bad_signature = refl

-- An error that wraps exactly one sentinel is logged with that sentinel's own message, and with the
-- URL of the chain exactly where that message has it.
pub failure_message-WrapsOne :
    (s : Sentinel) (e : Error) → WrapsOne s e → failure_message e ≡ message_of s
unfolding failure_message
failure_message-WrapsOne s e one =
    rw
      (
        failure_message,
        wraps_one s missing_header e one,
        wraps_one s stale_timestamp e one,
        wraps_one s cert_url_userinfo e one,
        wraps_one s cert_url_traversal e one,
        wraps_one s cert_url_invalid e one,
        wraps_one s cert_fetch e one,
        wraps_one s untrusted_chain e one,
        wraps_one s cert_hostname e one,
        wraps_one s unsupported_key e one,
        wraps_one s bad_signature e one,
      )
      (message_of_tests s)
