-- ===== src/Alexa/Spoken.antt =====
-- What a request is answered with: when the stream is played, and what a directive can be.
use billy.Url.Escape.{escape, path_should_escape, host_should_escape}
use billy.Url.Normalize.{url_string}
use billy.Base.{
  codes, ◌++◌, none, ◌≢◌, ℕ, List, [], ◌∷◌, String, str_eq, str_eq_iff, bytes_eq, bytes_eq_iff,
  Bool, true, ◌&&◌, ◌||◌, ◌≡◌, ◌⊎◌, inl, inr, refl, All, some, Bool-cases, Option-cases,
  and-eq-true,
}
use mathlib.Core.Path.{subst}
use billy.Base.Int.{ℤ, pos}
use billy.Errors.{Result, ok, err, Foreign}
use billy.Alexa.Dispatch.{
  BookText, dispatch_lifecycle, stop_configured_stream, resume_configured_stream, supports_audio,
  awaits_title, play_title, dispatch_intent, dispatch_decoded, dispatch_alexa_request, text_at,
  is_quiet_lifecycle, LogLine,
}
use billy.Alexa.Envelope.{
  stream_url, Directive, Envelope, Request, static_book_token, new_alexa_envelope,
  empty_alexa_envelope, new_title_prompt_envelope, with_directives, new_play_directive,
  stop_directive,
}
use billy.Alexa.Title.{Unicode, normalize_title}

module _ (u : Unicode) (unmarshal_bool : String → Result Foreign Bool) (host : List ℕ)
    (book : BookText) where
  -- The paused stream is resumed.
  pub record Resumes (r : Request) (offset : ℤ) : Type 0 where
    pub intent : r.intent_name ≡ "AMAZON.ResumeIntent"
    pub token : r.player.token ≡ static_book_token
    pub activity : r.player.player_activity ≡ "PAUSED"
    pub place : offset ≡ r.player.offset

  -- The title is asked for by name, or given after the prompt.
  pub data Asks (r : Request) : Type 0 where
    play_book : r.intent_name ≡ "PlayBookIntent" → Asks r
    select_book :
        r.intent_name ≡ "SelectBookIntent"
        → awaits_title u unmarshal_bool host book r ≡ true
        → Asks r

  -- The book is started from its beginning.
  pub record Starts (r : Request) (offset : ℤ) : Type 0 where
    pub asks : Asks r
    pub title : normalize_title u (text_at "title" r.slots) ≡ normalize_title u book.title
    pub supported : supports_audio r ≡ true
    pub place : offset ≡ pos 0

  -- The answers to a request, with what leads to those that play.
  data Answered (r : Request) : Envelope → Type 0 where
    quiet : Answered r empty_alexa_envelope
    spoken : (text : String) → Answered r (new_alexa_envelope text)
    prompted : Answered r new_title_prompt_envelope
    stopped : Answered r (with_directives (stop_directive ∷ []) empty_alexa_envelope)
    resumed :
        (offset : ℤ)
        → Resumes r offset
        → Answered r (with_directives (new_play_directive host offset ∷ []) empty_alexa_envelope)
    started :
        (text : String) (offset : ℤ)
        → Starts r offset
        → Answered r
            (with_directives (new_play_directive host offset ∷ []) (new_alexa_envelope text))

  stop-Answered : (r : Request) (token : String) → Answered r (stop_configured_stream token)
  unfolding stop_configured_stream
  stop-Answered r token = elim (Bool-cases (str_eq token static_book_token)) [
    | inl e ↦ rw (e, stop_configured_stream) Answered.stopped
    | inr e ↦ rw (e, stop_configured_stream) Answered.quiet
  ]

  resume-Answered :
      (r : Request)
      → r.intent_name ≡ "AMAZON.ResumeIntent"
      → Answered r (resume_configured_stream host r.player)
  unfolding resume_configured_stream
  resume-Answered r intent =
      elim (Bool-cases
        (str_eq r.player.token static_book_token && str_eq r.player.player_activity "PAUSED")) [
          | inl e ↦
              let (token, activity) = and-eq-true _ _ e in
              rw (e, resume_configured_stream)
                (Answered.resumed r.player.offset (record {
                  intent = intent;
                  token = (str_eq_iff _ _).0 token;
                  activity = (str_eq_iff _ _).0 activity;
                  place = refl;
                }))
          | inr e ↦ rw (e, resume_configured_stream) Answered.quiet
        ]

  play-Answered : (r : Request) → Asks r → Answered r (play_title u unmarshal_bool host book r)
  unfolding play_title
  play-Answered r asks =
      elim (Bool-cases
        (bytes_eq (normalize_title u (text_at "title" r.slots)) (normalize_title u book.title))) [
          | inr e ↦ rw (e, play_title) (Answered.spoken _)
          | inl e ↦ elim (Bool-cases (supports_audio r)) [
            | inr e' ↦ rw (e, e', play_title) (Answered.spoken _)
            | inl e' ↦
                rw (e, e', play_title)
                  (Answered.started _ (pos 0) (record {
                    asks = asks;
                    title = (bytes_eq_iff _ _).0 e;
                    supported = e';
                    place = refl;
                  }))
          ]
        ]

  intent-Answered : (r : Request) → Answered r (dispatch_intent u unmarshal_bool host book r)
  unfolding dispatch_intent
  intent-Answered r =
      elim (Bool-cases
        (str_eq r.intent_name "AMAZON.PauseIntent" || str_eq r.intent_name "AMAZON.StopIntent")) [
          | inl e ↦ rw (e, dispatch_intent) (stop-Answered r r.player.token)
          | inr e ↦ elim (Bool-cases (str_eq r.intent_name "AMAZON.ResumeIntent")) [
            | inl i ↦ rw (e, i, dispatch_intent) (resume-Answered r ((str_eq_iff _ _).0 i))
            | inr i ↦ elim (Bool-cases (str_eq r.intent_name "PlayBookIntent")) [
              | inl p ↦
                  rw (e, i, p, dispatch_intent)
                    (play-Answered r (Asks.play_book ((str_eq_iff _ _).0 p)))
              | inr p ↦ elim (Bool-cases (str_eq r.intent_name "SelectBookIntent")) [
                | inr s ↦ rw (e, i, p, s, dispatch_intent) (Answered.spoken _)
                | inl s ↦ elim (Bool-cases (awaits_title u unmarshal_bool host book r)) [
                  | inl w ↦
                      rw (e, i, p, s, w, dispatch_intent)
                        (play-Answered r (Asks.select_book ((str_eq_iff _ _).0 s) w))
                  | inr w ↦ rw (e, i, p, s, w, dispatch_intent) (Answered.spoken _)
                ]
              ]
            ]
          ]
        ]

  lifecycle_empty :
      (r : Request) (handled : Envelope × List LogLine)
      → dispatch_lifecycle r ≡ some handled
      → handled.0 ≡ empty_alexa_envelope
  unfolding dispatch_lifecycle
  lifecycle_empty r handled h = elim (Bool-cases (is_quiet_lifecycle r.type)) [
    | inl e ↦ cc (rw (e, dispatch_lifecycle) at h)
    | inr e ↦ elim (Bool-cases (str_eq r.type "AudioPlayer.PlaybackFailed")) [
      | inl f ↦ cc (rw (e, f, dispatch_lifecycle) at h)
      | inr f ↦ cc (rw (e, f, dispatch_lifecycle) at h)
    ]
  ]

  -- A request that is an intent, or whose answer plays nothing.
  decoded-Answered :
      (r : Request)
      → Answered r (dispatch_decoded u unmarshal_bool host book r).0
        × ((r.type ≡ "IntentRequest")
            ⊎ ((dispatch_decoded u unmarshal_bool host book r).0.response.directives ≡ []))
  unfolding dispatch_decoded
  decoded-Answered r = elim (Option-cases (dispatch_lifecycle r)) [
    | inr (handled, e) ↦
        rw (e, dispatch_decoded, lifecycle_empty r handled e)
          (Answered.quiet, inr (unfold empty_alexa_envelope in refl))
    | inl e ↦ elim (Bool-cases (str_eq r.type "LaunchRequest")) [
      | inl l ↦
          rw (e, l, dispatch_decoded)
            (Answered.prompted, inr (unfold new_title_prompt_envelope in refl))
      | inr l ↦ elim (Bool-cases (str_eq r.type "IntentRequest")) [
        | inr i ↦
            rw (e, l, i, dispatch_decoded)
              (Answered.spoken _, inr (unfold new_alexa_envelope in refl))
        | inl i ↦ rw (e, l, i, dispatch_decoded) (intent-Answered r, inl ((str_eq_iff _ _).0 i))
      ]
    ]
  ]

  -- Stop, or the play of the one stream at an offset, in place of what plays.
  abbrev pub IsFixed : Directive → Type 0
  IsFixed d =
      (d ≡ record { type = "AudioPlayer.Stop"; play_behavior = ""; audio_item = none })
      ⊎ ((offset : ℤ) × (d ≡ record {
        type = "AudioPlayer.Play";
        play_behavior = "REPLACE_ALL";
        audio_item = some (record {
          token = "20d5b92f-69ff-4cb4-9236-3fae8c8f36e1";
          url = codes "https://" ++ (escape host_should_escape host ++ codes "/media/book.mp3");
          offset = offset;
        });
      }))

  play-IsFixed : (offset : ℤ) → IsFixed (new_play_directive host offset)
  unfolding new_play_directive stream_url url_string escape path_should_escape
  play-IsFixed offset = inr (offset, refl)

  IsFixed-answer : (r : Request) (e : Envelope) → Answered r e → All IsFixed e.response.directives
  IsFixed-answer r e Answered.quiet = unfold empty_alexa_envelope in tt
  IsFixed-answer r e (Answered.spoken text) = unfold new_alexa_envelope in tt
  IsFixed-answer r e Answered.prompted = unfold new_title_prompt_envelope in tt
  IsFixed-answer r e Answered.stopped = (inl refl, tt)
  IsFixed-answer r e (Answered.resumed offset p) = (play-IsFixed offset, tt)
  IsFixed-answer r e (Answered.started text offset p) = (play-IsFixed offset, tt)

  -- Whatever was decoded, or if nothing was, every directive in the answer is a stop, or plays the one
  -- configured stream in place of what plays: with the fixed token, and the URL of https, the given
  -- host, escaped as `URL.String` escapes it, and /media/book.mp3.
  pub dispatch_alexa_request-IsFixed :
      (decoded : Result Foreign Request)
      → All IsFixed
          (dispatch_alexa_request u unmarshal_bool host book decoded).0.response.directives
  unfolding dispatch_alexa_request
  dispatch_alexa_request-IsFixed (err cause) = unfold new_alexa_envelope in tt
  dispatch_alexa_request-IsFixed (ok r) = IsFixed-answer r _ (decoded-Answered r).0

  same_offset :
      (a b : ℤ) (rest : List Directive)
      → (new_play_directive host a ∷ rest) ≡ (new_play_directive host b ∷ rest)
      → a ≡ b
  unfolding new_play_directive
  same_offset a b rest h = cc

  not_stop :
      (a : ℤ) → ◌≢◌ {A = List Directive} (stop_directive ∷ []) (new_play_directive host a ∷ [])
  unfolding new_play_directive
  not_stop a h = cc

  played_answer :
      (r : Request) (e : Envelope) (offset : ℤ)
      → Answered r e
      → e.response.directives ≡ new_play_directive host offset ∷ []
      → Resumes r offset ⊎ Starts r offset
  unfolding empty_alexa_envelope new_alexa_envelope new_title_prompt_envelope
  played_answer r e offset Answered.quiet h = cc
  played_answer r e offset (Answered.spoken text) h = cc
  played_answer r e offset Answered.prompted h = cc
  played_answer r e offset Answered.stopped h = absurd (not_stop offset h)
  played_answer r e offset (Answered.resumed place p) h =
      inl (subst (Resumes r) (same_offset place offset [] h) p)
  played_answer r e offset (Answered.started text place p) h =
      inr (subst (Starts r) (same_offset place offset [] h) p)

  -- If the answer plays the stream at an offset, then the request is an intent, and either it resumes
  -- a stream with the static token that is paused, at the offset the player gave, or it asks for the
  -- book (by name, or by a title given while one is awaited) with the book's title, up to
  -- normalisation, on a device that supports audio, and the offset is 0.
  pub dispatch_alexa_request_plays :
      (r : Request) (offset : ℤ)
      → (dispatch_alexa_request u unmarshal_bool host book (ok r)).0.response.directives
        ≡ new_play_directive host offset ∷ []
      → (r.type ≡ "IntentRequest") × (Resumes r offset ⊎ Starts r offset)
  unfolding dispatch_alexa_request
  dispatch_alexa_request_plays r offset h =
      let (answered, kind) = decoded-Answered r in
      (intent kind, played_answer r _ offset answered h)
    where
      intent :
          (r.type ≡ "IntentRequest")
            ⊎ ((dispatch_decoded u unmarshal_bool host book r).0.response.directives ≡ [])
          → r.type ≡ "IntentRequest"
      intent (inl same) = same
      intent (inr none_left) = cc
