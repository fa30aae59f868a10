-- ===== src/Alexa/Dispatch.antt =====
-- `dispatchAlexaRequest` and what it calls.
--
-- `json.Unmarshal` into the request envelope and into a Boolean are arguments, and so are the tables
-- of the package unicode.
use Prim.Native.String.{◌++◌}
use billy.Base.{
  ℕ, List, [], ◌∷◌, String, str_eq, bytes_eq, Bool, false, not, ◌&&◌, ◌||◌, if◌then◌else◌, Option,
  none, some,
}
use billy.Base.Int.{pos}
use billy.Errors.{Result, ok, err, Foreign}
use billy.Alexa.Envelope.{
  Envelope, Request, PlayerContext, static_book_token, new_alexa_envelope, empty_alexa_envelope,
  new_title_prompt_envelope, with_directives, new_play_directive, stop_directive,
}
use billy.Alexa.Title.{Unicode, normalize_title}

-- The fields of `book` that the answers read.
pub record BookText : Type 0 where
  pub title : String
  pub author : String

-- What the dispatch logs, both at the level error.
pub data LogLine : Type 0 where
  undecodable : Foreign → LogLine
  playback_failed : String → String → LogLine

-- `m[key]` on a map with texts for values; a missing key gives the empty text.
unfoldable pub text_at : String → List (String × String) → String
text_at key [] = ""
text_at key ((k, v) ∷ m) = if str_eq k key then v else text_at key m

unfoldable pub has_text : String → List (String × String) → Bool
has_text key [] = false
has_text key ((k, v) ∷ m) = str_eq k key || has_text key m

abbrev pub is_quiet_lifecycle : String → Bool
is_quiet_lifecycle type =
    str_eq type "AudioPlayer.PlaybackStarted"
    || str_eq type "AudioPlayer.PlaybackStopped"
    || str_eq type "AudioPlayer.PlaybackFinished"
    || str_eq type "AudioPlayer.PlaybackNearlyFinished"

-- none is the result `false`: not handled.
unfoldable pub dispatch_lifecycle : Request → Option (Envelope × List LogLine)
dispatch_lifecycle request =
    if is_quiet_lifecycle request.type
    then some (empty_alexa_envelope, [])
    else if str_eq request.type "AudioPlayer.PlaybackFailed"
    then some (empty_alexa_envelope, playback_failed request.token request.error_type ∷ [])
    else none

unfoldable pub stop_configured_stream : String → Envelope
stop_configured_stream token =
    if str_eq token static_book_token
    then with_directives (stop_directive ∷ []) empty_alexa_envelope
    else empty_alexa_envelope

unfoldable pub resume_configured_stream : List ℕ → PlayerContext → Envelope
resume_configured_stream host player =
    if str_eq player.token static_book_token && str_eq player.player_activity "PAUSED"
    then with_directives (new_play_directive host player.offset ∷ []) empty_alexa_envelope
    else empty_alexa_envelope

abbrev pub ask_for : BookText → Envelope
ask_for book = new_alexa_envelope ("Ask me to play " ++ (book.title ++ "."))

abbrev pub only_know : BookText → Envelope
only_know book = new_alexa_envelope ("I only know " ++ (book.title ++ "."))

abbrev pub unsupported : Envelope
unsupported = new_alexa_envelope "This device does not support audiobook playback."

unfoldable pub announcement : BookText → String
announcement book =
    if str_eq book.author ""
    then "Playing " ++ (book.title ++ ".")
    else "Playing " ++ (book.title ++ (" by " ++ (book.author ++ ".")))

unfoldable pub supports_audio : Request → Bool
supports_audio request =
    has_text "AudioPlayer" request.supported_interfaces
    && not (str_eq (text_at "AudioPlayer" request.supported_interfaces) "null")

module _ (u : Unicode) (unmarshal_bool : String → Result Foreign Bool) (host : List ℕ)
    (book : BookText) where
  -- `awaitingTitle` decodes to true.
  unfoldable pub awaits_title : Request → Bool
  awaits_title request = elim (unmarshal_bool (text_at "awaitingTitle" request.attributes)) [
    | ok awaiting ↦ awaiting
    | err cause ↦ false
  ]

  -- What follows the switch on the intent.
  unfoldable pub play_title : Request → Envelope
  play_title request =
      if not (
        bytes_eq (normalize_title u (text_at "title" request.slots)) (normalize_title u book.title))
      then only_know book
      else if not (supports_audio request)
      then unsupported
      else with_directives (new_play_directive host (pos 0) ∷ [])
          (new_alexa_envelope (announcement book))

  unfoldable pub dispatch_intent : Request → Envelope
  dispatch_intent request =
      let name = request.intent_name in
      if str_eq name "AMAZON.PauseIntent" || str_eq name "AMAZON.StopIntent"
      then stop_configured_stream request.player.token
      else if str_eq name "AMAZON.ResumeIntent"
      then resume_configured_stream host request.player
      else if str_eq name "PlayBookIntent"
      then play_title request
      else if str_eq name "SelectBookIntent"
      then if awaits_title request then play_title request else ask_for book
      else ask_for book

  unfoldable pub dispatch_decoded : Request → Envelope × List LogLine
  dispatch_decoded request = elim (dispatch_lifecycle request) [
    | some handled ↦ handled
    | none ↦
        if str_eq request.type "LaunchRequest"
        then (new_title_prompt_envelope, [])
        else if not (str_eq request.type "IntentRequest")
        then (ask_for book, [])
        else (dispatch_intent request, [])
  ]

  unfoldable pub dispatch_alexa_request : Result Foreign Request → Envelope × List LogLine
  dispatch_alexa_request (err cause) =
      (new_alexa_envelope "I couldn't understand that request.", undecodable cause ∷ [])
  dispatch_alexa_request (ok request) = dispatch_decoded request
