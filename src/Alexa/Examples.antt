-- ===== src/Alexa/Examples.antt =====
-- Runs of the dispatch on concrete requests, and instances of its theorems.
use billy.Base.{
  ℕ, leb, ◌+◌, ◌&&◌, codes, [], ◌∷◌, String, str_eq, bytes_eq, Bool, true, false, if◌then◌else◌,
  ◌≡◌, ◌⊎◌, refl, All,
}
use billy.Base.Int.{pos}
use billy.Errors.{Result, ok, err, Foreign}
use billy.Alexa.Dispatch.{
  BookText, dispatch_lifecycle, resume_configured_stream, supports_audio, announcement,
  awaits_title, play_title, dispatch_intent, dispatch_decoded, dispatch_alexa_request, text_at,
  has_text,
}
use billy.Alexa.Envelope.{Request, new_alexa_envelope, empty_alexa_envelope, new_play_directive}
use billy.Alexa.Spoken.{
  Resumes, Starts, IsFixed, dispatch_alexa_request-IsFixed, dispatch_alexa_request_plays,
}
use billy.Alexa.Title.{Unicode, normalize_runes, normalize_title}

-- The ASCII part of the tables.
abbrev lower : ℕ → ℕ
lower r = if leb b'A' r && leb r b'Z' then r + 32 else r

abbrev ascii : Unicode
ascii = record {
  is_letter = λ r. (leb b'a' (lower r) && leb (lower r) b'z');
  is_digit = λ r. (leb b'0' r && leb r b'9');
  is_mark = λ r. false;
  to_lower = lower;
}

abbrev book : BookText
book = record { title = "The Book"; author = "" }

abbrev json_bool : String → Result Foreign Bool
json_bool text = if str_eq text "true" then ok true else err 1

abbrev asked : Request
asked = record {
  attributes = ("awaitingTitle", "true") ∷ [];
  player = record { player_activity = "IDLE"; token = ""; offset = pos 0 };
  supported_interfaces = ("AudioPlayer", "{}") ∷ [];
  type = "IntentRequest";
  token = "";
  error_type = "";
  intent_name = "SelectBookIntent";
  slots = ("title", "the book!") ∷ [];
}

program : Unit {0}
unfolding dispatch_lifecycle resume_configured_stream supports_audio announcement awaits_title
    play_title dispatch_intent dispatch_decoded dispatch_alexa_request text_at has_text
    new_alexa_envelope empty_alexa_envelope new_play_directive normalize_runes normalize_title
    bytes_eq
program = tt

asked_runs :
    (dispatch_alexa_request ascii json_bool (codes "h") book (ok asked)).0.response.directives
    ≡ new_play_directive (codes "h") (pos 0) ∷ []
unfolding program
asked_runs = refl

dispatch_alexa_request_plays_example :
    (asked.type ≡ "IntentRequest")
    × (Resumes ascii json_bool (codes "h") book asked (pos 0)
        ⊎ Starts ascii json_bool (codes "h") book asked (pos 0))
dispatch_alexa_request_plays_example =
    dispatch_alexa_request_plays ascii json_bool (codes "h") book asked (pos 0) asked_runs

dispatch_alexa_request-IsFixed_example :
    All
      (IsFixed ascii json_bool (codes "h") book)
      (dispatch_alexa_request ascii json_bool (codes "h") book (ok asked)).0.response.directives
dispatch_alexa_request-IsFixed_example =
    dispatch_alexa_request-IsFixed ascii json_bool (codes "h") book (ok asked)
