-- ===== src/Version/Examples.antt =====
-- Runs of the version string, on two builds.
use billy.Base.{bytes_eq, codes, [], ◌∷◌, none, some, ◌≡◌, refl}
use billy.Version.{
  Stamp, BuildInfo, released, note_setting, note_settings, show_revision, build_version,
}

abbrev unset : Stamp
unset = record { version = []; commit = []; date = [] }

abbrev tagged : Stamp
tagged = record { version = codes "1.2"; commit = codes "ab"; date = codes "now" }

abbrev checkout : BuildInfo
checkout = record {
  main_version = codes "(devel)";
  settings =
      record { key = codes "vcs.revision"; value = codes "0123456789abcdef" }
      ∷ record { key = codes "vcs.modified"; value = codes "true" }
      ∷ [];
}

tagged_runs : build_version tagged none ≡ codes "1.2 (ab, now)"
unfolding bytes_eq released build_version
tagged_runs = refl

checkout_runs : build_version unset (some checkout) ≡ codes "0123456789ab-dirty"
unfolding bytes_eq note_setting note_settings show_revision build_version
checkout_runs = refl
