-- ===== src/Capture/Examples.antt =====
-- Runs of a capture, and instances of its theorems.
use billy.Base.{ℕ, bytes_eq, codes, List, [], ◌∷◌, ◌++◌, ◌≡◌, refl, if◌then◌else◌, none, some}
use billy.Base.{◌≢◌, false, true, bytes_eq_iff}
use billy.Url.Clean.{clean, clean_relative, clean_rooted, resolve_all, split_slash}
use billy.Capture.{
  Disk, written, failed, Os, write, remove_path, remove_capture_files, capture_stem, body_path,
  sidecar_path, abandon, save_files, save,
}
use billy.Capture.Kept.{save_ok, save_error}
use billy.Errors.{ok, err}

-- An operating system on which everything works, with the `filepath.Join` of Unix; metadata is a text.
abbrev working : Os (List ℕ)
working = record {
  random = ok (codes "ff");
  stem_of = λ meta suffix. meta ++ suffix;
  marshal = λ meta. ok meta;
  join = λ dir name. clean (dir ++ b'/' ∷ name);
  write_file = λ path content. written;
  remove_file = λ path. none;
}

-- The disk is full when the second file is written.
abbrev full : Os (List ℕ)
full = record working {
  write_file =
      λ path content. if bytes_eq path (codes "d/mff.json") then failed (some []) 7 else written;
}

abbrev empty : Disk
empty = λ path. none

program : Unit {0}
unfolding write remove_path remove_capture_files capture_stem abandon save_files save bytes_eq clean
    clean_relative clean_rooted resolve_all split_slash
program = tt

-- `d/mff.json` and `d/mff.body`.
paths_differ :
    sidecar_path working (codes "d/") (codes "mff") ≢ body_path working (codes "d/") (codes "mff")
unfolding program
paths_differ e =
    let t : false ≡ true = (bytes_eq_iff (codes "d/mff.json") (codes "d/mff.body")).1 e in cc

saved_runs : (save working (codes "d/") empty (codes "m") (codes "b")).1 ≡ ok (codes "mff")
unfolding program
saved_runs = refl

failed_runs : (save full (codes "d/") empty (codes "m") (codes "b")).1 ≡ err (7 ∷ [])
unfolding program
failed_runs = refl

stem_runs : capture_stem full (codes "m") ≡ ok (codes "mff")
unfolding program
stem_runs = refl

save_ok_example :
    (sidecar : List ℕ) × (working.marshal (codes "m") ≡ ok sidecar)
    × ((save working (codes "d/") empty (codes "m") (codes "b")).0
          (body_path working (codes "d/") (codes "mff"))
        ≡ some (codes "b"))
    × ((save working (codes "d/") empty (codes "m") (codes "b")).0
          (sidecar_path working (codes "d/") (codes "mff"))
        ≡ some sidecar)
save_ok_example =
    save_ok working (codes "d/") empty (codes "m") (codes "b") (codes "mff") paths_differ saved_runs

save_error_example :
    (save full (codes "d/") empty (codes "m") (codes "b")).0 (codes "d/mff.body")
    ≡ empty (codes "d/mff.body")
save_error_example =
    save_error full (codes "d/") empty (codes "m") (codes "b") (codes "mff") (7 ∷ [])
      (codes "d/mff.body") (λ path. refl) stem_runs refl refl failed_runs
