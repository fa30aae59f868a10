-- ===== src/Capture.antt =====
-- capture.go: `newCaptureStore`, `Save`, `removeCaptureFiles` and `captureStem`.
--
-- The disk is a function from paths to contents. What the operating system does with a write or a
-- removal, the random suffix, the JSON encoding, the layout of the time and `filepath.Join` are
-- arguments, in the record `Os`.
pub mod Kept
mod Examples
use billy.Base.{ℕ, bytes_eq, codes, List, [], ◌∷◌, ◌++◌, if◌then◌else◌, Option, none, some}
use billy.Errors.{Result, ok, err, Foreign}

abbrev pub FilePath : Type 0
FilePath = List ℕ

abbrev pub Disk : Type 0
Disk = FilePath → Option (List ℕ)

-- `newCaptureStore`; a store is its directory.
unfoldable pub new_capture_store : (FilePath → Option Foreign) → FilePath → Result Foreign FilePath
new_capture_store mkdir_all dir = elim (mkdir_all dir) [ some cause ↦ err cause | none ↦ ok dir ]

-- A write that fails leaves the file absent or with some contents.
pub data WriteOutcome : Type 0 where
  written : WriteOutcome
  failed : Option (List ℕ) → Foreign → WriteOutcome

pub record Os (Metadata : Type 0) : Type 0 where
  -- `captureStem`: the time in its layout, a hyphen and the suffix in hexadecimal.
  pub random : Result Foreign (List ℕ)
  pub stem_of : Metadata → List ℕ → List ℕ
  pub marshal : Metadata → Result Foreign (List ℕ)
  pub join : FilePath → List ℕ → FilePath
  pub write_file : FilePath → List ℕ → WriteOutcome
  -- Whether the removal of a file that is there fails.
  pub remove_file : FilePath → Option Foreign

abbrev pub set : Disk → FilePath → Option (List ℕ) → Disk
set disk path content = λ p. if bytes_eq path p then content else disk p

module _ {Metadata : Type 0} (os : Os Metadata) where
  -- `os.WriteFile`
  unfoldable pub write : Disk → FilePath → List ℕ → Disk × Option Foreign
  write disk path content = elim (os.write_file path content) [
    | written ↦ (set disk path (some content), none)
    | failed left cause ↦ (set disk path left, some cause)
  ]

  -- The removal of one path; a file that is not there is no error.
  unfoldable pub remove_path : Disk → FilePath → Disk × List Foreign
  remove_path disk path = elim (disk path) [
    | none ↦ (disk, [])
    | some content ↦ elim (os.remove_file path) [
      | none ↦ (set disk path none, [])
      | some cause ↦ (disk, cause ∷ [])
    ]
  ]

  unfoldable pub remove_capture_files : Disk → List FilePath → Disk × List Foreign
  remove_capture_files disk [] = (disk, [])
  remove_capture_files disk (path ∷ paths) =
      let first = remove_path disk path in
      let rest = remove_capture_files first.0 paths in (rest.0, first.1 ++ rest.1)

  unfoldable pub capture_stem : Metadata → Result Foreign (List ℕ)
  capture_stem meta = elim os.random [
    | ok suffix ↦ ok (os.stem_of meta suffix)
    | err cause ↦ err cause
  ]

  abbrev pub body_path : FilePath → List ℕ → FilePath
  body_path dir stem = os.join dir (stem ++ codes ".body")

  abbrev pub sidecar_path : FilePath → List ℕ → FilePath
  sidecar_path dir stem = os.join dir (stem ++ codes ".json")

  -- The failure of a write: the clean-up, and its causes joined.
  unfoldable pub abandon : Disk → Foreign → List FilePath → Disk × Result (List Foreign) (List ℕ)
  abandon disk cause paths =
      let cleaned = remove_capture_files disk paths in (cleaned.0, err (cause ∷ cleaned.1))

  -- The two writes, body first.
  unfoldable pub save_files :
      FilePath → Disk → List ℕ → List ℕ → List ℕ → Disk × Result (List Foreign) (List ℕ)
  save_files dir disk stem body sidecar =
      let first = write disk (body_path dir stem) body in
      elim first.1 [
        | some cause ↦ abandon first.0 cause (body_path dir stem ∷ [])
        | none ↦
            let second = write first.0 (sidecar_path dir stem) sidecar in
            elim second.1 [
              | some cause ↦
                  abandon second.0 cause (body_path dir stem ∷ sidecar_path dir stem ∷ [])
              | none ↦ (second.0, ok stem)
            ]
      ]

  unfoldable pub save : FilePath → Disk → Metadata → List ℕ → Disk × Result (List Foreign) (List ℕ)
  save dir disk meta body = elim (capture_stem meta) [
    | err cause ↦ (disk, err (cause ∷ []))
    | ok stem ↦ elim (os.marshal meta) [
      | err cause ↦ (disk, err (cause ∷ []))
      | ok sidecar ↦ save_files dir disk stem body sidecar
    ]
  ]
