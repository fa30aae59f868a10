-- ===== src/Version.antt =====
-- version.go: `buildVersion`, with what `debug.ReadBuildInfo` gives as an argument.
--
-- A text is the list of its bytes.
pub mod Stamped
mod Examples
use billy.Base.{
  ℕ, ltb, bytes_eq, codes, List, [], ◌∷◌, ◌++◌, length, take, is_empty, Bool, false, not, ◌&&◌,
  if◌then◌else◌, Option, none, some,
}

-- The variables that the release build sets.
pub record Stamp : Type 0 where
  pub version : List ℕ
  pub commit : List ℕ
  pub date : List ℕ

pub record Setting : Type 0 where
  pub key : List ℕ
  pub value : List ℕ

-- `debug.BuildInfo`, as far as it is read.
pub record BuildInfo : Type 0 where
  pub main_version : List ℕ
  pub settings : List Setting

abbrev pub devel : List ℕ
devel = codes "(devel)"

-- The commit and the date, in parentheses.
abbrev pub in_parentheses : Stamp → List ℕ
in_parentheses s =
    codes " (" ++ s.commit ++ (if is_empty s.date then [] else codes ", " ++ s.date) ++ codes ")"

unfoldable pub released : Stamp → List ℕ
released s = if is_empty s.commit then s.version else s.version ++ in_parentheses s

-- The revision and whether the tree was modified.
pub record Revision : Type 0 where
  pub rev : List ℕ
  pub modified : Bool

-- One turn of the loop over the settings.
unfoldable pub note_setting : Revision → Setting → Revision
note_setting r s =
    if bytes_eq s.key (codes "vcs.revision")
    then record r { rev = s.value }
    else if bytes_eq s.key (codes "vcs.modified")
    then record r { modified = bytes_eq s.value (codes "true") }
    else r

unfoldable pub note_settings : Revision → List Setting → Revision
note_settings r [] = r
note_settings r (s ∷ settings) = note_settings (note_setting r s) settings

abbrev pub unknown_revision : Revision
unknown_revision = record { rev = []; modified = false }

-- What follows the loop.
unfoldable pub show_revision : Revision → List ℕ
show_revision r =
    let short = if ltb 12 (length r.rev) then take 12 r.rev else r.rev in
    if is_empty r.rev then devel else if r.modified then short ++ codes "-dirty" else short

unfoldable pub build_version : Stamp → Option BuildInfo → List ℕ
build_version s read = if not (is_empty s.version) then released s else elim read [
  | none ↦ devel
  | some info ↦
      if not (is_empty info.main_version) && not (bytes_eq info.main_version devel)
      then info.main_version
      else show_revision (note_settings unknown_revision info.settings)
]
