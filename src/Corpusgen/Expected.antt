-- ===== src/Corpusgen/Expected.antt =====
-- The corpus that is wanted, written out: the seven requests, and the bytes of each body.
use mathlib.Core.List.{append_assoc}
use billy.Base.{ℕ, codes, List, [], ◌∷◌, ◌++◌, ◌≡◌}
use billy.Corpusgen.Requests.{Fixture, to_lower, fixture_body}

-- A request of the corpus: its type, which names its directory, its id, and what ends its JSON object.
pub record Expected : Type 0 where
  pub name : List ℕ
  pub id : List ℕ
  pub extra : List ℕ

abbrev pub expected : List Expected
expected =
    record { name = codes "LaunchRequest"; id = codes "synthetic-launchrequest"; extra = [] }
    ∷ record {
      name = codes "IntentRequest";
      id = codes "synthetic-intentrequest";
      extra =
          codes
            ",\"intent\":{\"name\":\"SyntheticIntent\",\"confirmationStatus\":\"NONE\",\"slots\":{}}";
    }
    ∷ record {
      name = codes "AudioPlayer.PlaybackStarted";
      id = codes "synthetic-audioplayer.playbackstarted";
      extra = codes ",\"token\":\"synthetic-audio-token\",\"offsetInMilliseconds\":0";
    }
    ∷ record {
      name = codes "AudioPlayer.PlaybackNearlyFinished";
      id = codes "synthetic-audioplayer.playbacknearlyfinished";
      extra = codes ",\"token\":\"synthetic-audio-token\",\"offsetInMilliseconds\":59000";
    }
    ∷ record {
      name = codes "AudioPlayer.PlaybackStopped";
      id = codes "synthetic-audioplayer.playbackstopped";
      extra = codes ",\"token\":\"synthetic-audio-token\",\"offsetInMilliseconds\":32000";
    }
    ∷ record {
      name = codes "AudioPlayer.PlaybackFinished";
      id = codes "synthetic-audioplayer.playbackfinished";
      extra = codes ",\"token\":\"synthetic-audio-token\",\"offsetInMilliseconds\":60000";
    }
    ∷ record {
      name = codes "AudioPlayer.PlaybackFailed";
      id = codes "synthetic-audioplayer.playbackfailed";
      extra =
          codes ",\"token\":\"synthetic-audio-token\",\"offsetInMilliseconds\":12000,"
          ++ codes "\"error\":{\"type\":\"MEDIA_ERROR_UNKNOWN\",\"message\":\"synthetic failure\"}";
    }
    ∷ []

-- What stands before the type of the request.
abbrev pub opening : List ℕ
opening =
    codes "{\n  \"version\": \"1.0\",\n  \"context\": {\n    \"System\": {\n"
    ++ codes "      \"application\": {\"applicationId\": \"amzn1.ask.skill.synthetic\"},\n"
    ++ codes "      \"user\": {\"userId\": \"synthetic-user-id\"},\n"
    ++ codes "      \"device\": {\"deviceId\": \"synthetic-device-id\"},\n"
    ++ codes "      \"apiEndpoint\": \"https://api.amazonalexa.com\",\n"
    ++ codes "      \"apiAccessToken\": \"synthetic-api-access-token\"\n    }\n  },\n"
    ++ codes "  \"request\": {\n    \"type\": \""

-- The body with these parts, and the time of the corpus.
abbrev pub body_text : List ℕ → List ℕ → List ℕ → List ℕ
body_text name id extra =
    opening
    ++ (name
        ++ (codes "\",\n    \"requestId\": \""
            ++ (id
                ++ (codes
                      "\",\n    \"timestamp\": \"2026-01-02T03:04:05Z\",\n    \"locale\": \"en-US\""
                    ++ (extra ++ codes "\n  }\n}\n")))))

abbrev pub expected_body : Expected → List ℕ
expected_body e = body_text e.name e.id e.extra

-- What `writeFixture` formats is that text.
pub fixture_body-body_text :
    (item : Fixture)
    → fixture_body (codes "2026-01-02T03:04:05Z") item
      ≡ body_text item.request_type (codes "synthetic-" ++ to_lower item.directory) item.extra
unfolding fixture_body
fixture_body-body_text item = simp (append_assoc)
