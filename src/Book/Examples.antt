-- ===== src/Book/Examples.antt =====
-- Runs of the loading of a book, and instances of its theorems.
use billy.Base.{leb, bytes_eq, codes, [], ◌∷◌, true, false, ◌≡◌, ◌↔◌, refl, none, some}
use billy.Alexa.Title.{Unicode, normalize_runes, normalize_title}
use billy.Errors.{ok, err}
use billy.Trim.{trim_space}
use billy.Book.{
  Files, Descriptor, Book, root_dir, end_of_file, mp3_traverses, is_blank, split_at,
  contains_parent_element, reject_trailing_json, check_author, check_descriptor, close_result,
  open_media, validate_media, open_book, load_open, load_book,
}
use billy.Book.Elements.{HasParent, contains_parent_element_iff}
use billy.Book.Loaded.{IsLoaded, load_book_ok}
use billy.Book.Opened.{still_open, kept, load_book_leaves}

program : Unit {0}
unfolding billy.Trim.three_byte_space billy.Trim.trim_front billy.Trim.ascii_space
    billy.Trim.two_byte_space trim_space bytes_eq normalize_runes normalize_title is_blank split_at
    contains_parent_element reject_trailing_json check_author check_descriptor close_result
    open_media validate_media open_book load_open load_book
program = tt

abbrev tables : Unicode
tables = record {
  is_letter = λ r. leb b'a' r;
  is_digit = λ r. false;
  is_mark = λ r. false;
  to_lower = λ r. r;
}

abbrev good : Descriptor
good = record { title = "a book"; author = some (codes "me"); mp3 = "b/c.mp3" }

abbrev files : Files
files = record {
  open_file = λ name. none;
  decode = λ name. ok good;
  read_value = λ name. end_of_file;
  unmarshal_string = λ raw. ok "me";
  is_abs = λ name. false;
  is_local = λ name. true;
  dir = λ name. "d";
  open_root = λ dir. none;
  open_in = λ dir name. none;
  stat = λ dir name. ok (record { is_regular = true; mod_time = 0 });
  close_media = none;
}

-- The same, with a descriptor that leaves the directory.
abbrev escaping : Files
escaping = record files { decode = λ name. ok (record good { mp3 = "b\\..\\c" }) }

abbrev book : Book
book = record { title = "a book"; author = "me"; media_name = "b/c.mp3"; root = "d" }

loaded_runs : (load_book tables files "d/b.json").1 ≡ ok book
unfolding program
loaded_runs = refl

escaping_runs : (load_book tables escaping "d/b.json").1 ≡ err mp3_traverses
unfolding program
escaping_runs = refl

load_book_ok_example : IsLoaded tables files "d/b.json" book
load_book_ok_example = load_book_ok tables files "d/b.json" book loaded_runs

load_book_leaves_example :
    still_open [] (load_book tables escaping "d/b.json").0
    ≡ kept (root_dir ∷ []) (load_book tables escaping "d/b.json").1
load_book_leaves_example = load_book_leaves tables escaping "d/b.json"

contains_parent_element_iff_example :
    (contains_parent_element "a/../b" ≡ true) ↔ HasParent (codes "a/../b")
contains_parent_element_iff_example = contains_parent_element_iff "a/../b"
