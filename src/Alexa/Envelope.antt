-- ===== src/Alexa/Envelope.antt =====
-- The envelopes of alexa.go: what is decoded from a request, and what is answered.
--
-- Texts that come from decoded JSON are valid UTF-8 and are `String`s. The host of the request and
-- the URLs are lists of bytes.
use billy.Base.{ℕ, List, [], ◌∷◌, String, codes, Bool, true, false, Option, none, some}
use billy.Base.Int.{ℤ}
use billy.Url.Normalize.{url_string}

pub record OutputSpeech : Type 0 where
  pub type : String
  pub text : String

pub record Stream : Type 0 where
  pub token : String
  pub url : List ℕ
  pub offset : ℤ

pub record Directive : Type 0 where
  pub type : String
  pub play_behavior : String
  pub audio_item : Option Stream

pub record Response : Type 0 where
  pub output_speech : Option OutputSpeech
  pub reprompt : Option OutputSpeech
  pub directives : List Directive
  pub should_end_session : Option Bool

-- The only session attribute that the code sets is a Boolean.
pub record Envelope : Type 0 where
  pub version : String
  pub session_attributes : List (String × Bool)
  pub response : Response

pub record PlayerContext : Type 0 where
  pub player_activity : String
  pub token : String
  pub offset : ℤ

-- `alexaRequestEnvelope`; a raw JSON value is its text.
pub record Request : Type 0 where
  pub attributes : List (String × String)
  pub player : PlayerContext
  pub supported_interfaces : List (String × String)
  pub type : String
  pub token : String
  pub error_type : String
  pub intent_name : String
  pub slots : List (String × String)

abbrev pub static_book_token : String
static_book_token = "20d5b92f-69ff-4cb4-9236-3fae8c8f36e1"

abbrev pub plain_text : String → OutputSpeech
plain_text text = record { type = "PlainText"; text = text }

unfoldable pub new_alexa_envelope : String → Envelope
new_alexa_envelope text = record {
  version = "1.0";
  session_attributes = [];
  response = record {
    output_speech = some (plain_text text);
    reprompt = none;
    directives = [];
    should_end_session = some true;
  };
}

unfoldable pub empty_alexa_envelope : Envelope
empty_alexa_envelope = record {
  version = "1.0";
  session_attributes = [];
  response = record {
    output_speech = none;
    reprompt = none;
    directives = [];
    should_end_session = none;
  };
}

abbrev pub title_prompt : String
title_prompt = "What would you like to play?"

unfoldable pub new_title_prompt_envelope : Envelope
new_title_prompt_envelope = record {
  version = "1.0";
  session_attributes = ("awaitingTitle", true) ∷ [];
  response = record {
    output_speech = some (plain_text title_prompt);
    reprompt = some (plain_text title_prompt);
    directives = [];
    should_end_session = some false;
  };
}

-- `envelope.Response.Directives = directives`
abbrev pub with_directives : List Directive → Envelope → Envelope
with_directives directives e = record {
  version = e.version;
  session_attributes = e.session_attributes;
  response = record {
    output_speech = e.response.output_speech;
    reprompt = e.response.reprompt;
    directives = directives;
    should_end_session = e.response.should_end_session;
  };
}

abbrev pub media_path : List ℕ
media_path = codes "/media/book.mp3"

unfoldable pub stream_url : List ℕ → List ℕ
stream_url host = url_string (record {
  scheme = codes "https";
  user = false;
  host = host;
  path = media_path;
  raw_query = [];
})

unfoldable pub new_play_directive : List ℕ → ℤ → Directive
new_play_directive host offset = record {
  type = "AudioPlayer.Play";
  play_behavior = "REPLACE_ALL";
  audio_item = some (record { token = static_book_token; url = stream_url host; offset = offset });
}

abbrev pub stop_directive : Directive
stop_directive = record { type = "AudioPlayer.Stop"; play_behavior = ""; audio_item = none }
