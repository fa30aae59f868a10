-- ===== src/Book.antt =====
-- book.go: `loadBook`, `rejectTrailingJSON`, `containsParentElement`, `validateMedia`, `openMedia`.
--
-- A call gives, beside its result, the files and directories that it opened and closed, in order.
-- The file system, the JSON decoder and the functions of path/filepath that differ between platforms
-- are arguments, in the record `Files`. A text is a `String`, whose code points are Go's runes.
pub mod Elements
pub mod Loaded
pub mod Opened
mod Examples
use billy.Base.{
  ℕ, ◌==◌, leb, bytes_eq, codes, List, [], ◌∷◌, ◌++◌, is_empty, all, any, String, str_eq, Bool,
  true, false, not, ◌&&◌, ◌||◌, if◌then◌else◌, Option, none, some,
}
use billy.Alexa.Title.{Unicode, normalize_title}
use billy.Errors.{Result, ok, err, ◌>>=◌, Foreign}
use billy.Trim.{trim_space}

-- What is opened: the descriptor, its directory as an `os.Root`, or the media in it.
pub data Handle : Type 0 where
  descriptor_file root_dir media_file : Handle

pub data Event : Type 0 where
  opened closed : Handle → Event

-- `bookDescriptor`; the author is the raw JSON value, where it is present.
pub record Descriptor : Type 0 where
  pub title : String
  pub author : Option (List ℕ)
  pub mp3 : String

-- What the decoder finds after the first value.
pub data Trailing : Type 0 where
  end_of_file another_value : Trailing
  unreadable : Foreign → Trailing

pub data BookError : Type 0 where
  not_opened not_decoded not_inspected root_not_opened media_not_opened : Foreign → BookError
  trailing_value title_blank title_without_letters mp3_blank author_null : BookError
  author_not_a_string : Foreign → BookError
  mp3_absolute mp3_traverses mp3_not_local media_not_regular : BookError
  media_not_closed : Foreign → BookError

-- `os.FileInfo`, as far as it is read.
pub record Info : Type 0 where
  pub is_regular : Bool
  pub mod_time : ℕ

pub record Files : Type 0 where
  pub open_file : String → Option Foreign
  -- `json.UnmarshalDecode` on the file, and the next `ReadValue`.
  pub decode : String → Result Foreign Descriptor
  pub read_value : String → Trailing
  -- `json.Unmarshal` of a raw value into a string.
  pub unmarshal_string : List ℕ → Result Foreign String
  pub is_abs : String → Bool
  pub is_local : String → Bool
  pub dir : String → String
  pub open_root : String → Option Foreign
  -- `Root.Open` and `File.Stat`, by the root's directory and the name in it.
  pub open_in : String → String → Option Foreign
  pub stat : String → String → Result Foreign Info
  -- `File.Close` on the media.
  pub close_media : Option Foreign

pub record Book : Type 0 where
  pub title : String
  pub author : String
  pub media_name : String
  pub root : String

-- A result with what was opened and closed for it.
abbrev pub Traced : Type 0 → Type 0
Traced A = List Event × Result BookError A

-- `unicode.IsSpace`
abbrev pub is_space : ℕ → Bool
is_space r =
    (leb 9 r && leb r 13)
    || r == 32
    || r == 0x85
    || r == 0xA0
    || r == 0x1680
    || (leb 0x2000 r && leb r 0x200A)
    || r == 0x2028
    || r == 0x2029
    || r == 0x202F
    || r == 0x205F
    || r == 0x3000

-- `strings.TrimSpace(s) == ""`
unfoldable pub is_blank : String → Bool
is_blank s = all is_space (codes s)

-- `strings.FieldsFunc`: the runs of runes between separators that are not empty.
abbrev pub onto_first : ℕ → List (List ℕ) → List (List ℕ)
onto_first r [] = (r ∷ []) ∷ []
onto_first r (element ∷ elements) = (r ∷ element) ∷ elements

unfoldable pub split_at : (ℕ → Bool) → List ℕ → List (List ℕ)
split_at separates [] = [] ∷ []
split_at separates (r ∷ s) =
    let rest = split_at separates s in if separates r then [] ∷ rest else onto_first r rest

abbrev pub filled : List (List ℕ) → List (List ℕ)
filled [] = []
filled ([] ∷ elements) = filled elements
filled ((r ∷ element) ∷ elements) = (r ∷ element) ∷ filled elements

abbrev pub fields_func : (ℕ → Bool) → List ℕ → List (List ℕ)
fields_func separates s = filled (split_at separates s)

abbrev pub is_separator : ℕ → Bool
is_separator r = r == b'/' || r == 92

abbrev pub parent : List ℕ
parent = b'.' ∷ b'.' ∷ []

unfoldable pub contains_parent_element : String → Bool
contains_parent_element name =
    any (λ element. bytes_eq element parent) (fields_func is_separator (codes name))

infixl 5 ◌>>◌
abbrev pub ◌>>◌ {ℓ} :
    {B : Type ℓ} → Result BookError (Unit {0}) → Result BookError B → Result BookError B
m >> k = m >>= λ _. k

-- Guards in their order: the first test that holds gives its error.
abbrev pub refuse : List (Bool × BookError) → Result BookError (Unit {0})
refuse [] = ok tt
refuse ((test, e) ∷ guards) = if test then err e else refuse guards

unfoldable pub reject_trailing_json : Trailing → Result BookError (Unit {0})
reject_trailing_json end_of_file = ok tt
reject_trailing_json another_value = err trailing_value
reject_trailing_json (unreadable cause) = err (not_decoded cause)

module _ (u : Unicode) (files : Files) where
  unfoldable pub check_author : Option (List ℕ) → Result BookError String
  check_author none = ok ""
  check_author (some raw) =
      if bytes_eq (trim_space raw) (codes "null")
      then err author_null
      else elim (files.unmarshal_string raw) [
        | ok author ↦ ok author
        | err cause ↦ err (author_not_a_string cause)
      ]

  -- The checks on the fields of a descriptor, which give the author.
  abbrev pub title_guards : Descriptor → List (Bool × BookError)
  title_guards d =
      (is_blank d.title, title_blank)
      ∷ (is_empty (normalize_title u d.title), title_without_letters)
      ∷ (is_blank d.mp3, mp3_blank)
      ∷ []

  abbrev pub mp3_guards : Descriptor → List (Bool × BookError)
  mp3_guards d =
      (files.is_abs d.mp3, mp3_absolute)
      ∷ (contains_parent_element d.mp3, mp3_traverses)
      ∷ (not (files.is_local d.mp3), mp3_not_local)
      ∷ []

  unfoldable pub check_descriptor : Descriptor → Result BookError String
  check_descriptor d = do
    refuse (title_guards d)
    author ← check_author d.author
    refuse (mp3_guards d)
    ok author

  -- `openMedia`: on success the file stays open, and its `FileInfo` is what `Stat` gave.
  unfoldable pub open_media : Book → Traced Info
  open_media b = elim (files.open_in b.root b.media_name) [
    | some cause ↦ ([], err (media_not_opened cause))
    | none ↦ elim (files.stat b.root b.media_name) [
      | err cause ↦ (opened media_file ∷ closed media_file ∷ [], err (not_inspected cause))
      | ok info ↦
          if info.is_regular
          then (opened media_file ∷ [], ok info)
          else (opened media_file ∷ closed media_file ∷ [], err media_not_regular)
    ]
  ]

  unfoldable pub close_result : Option Foreign → Result BookError (Unit {0})
  close_result none = ok tt
  close_result (some cause) = err (media_not_closed cause)

  unfoldable pub validate_media : Book → Traced (Unit {0})
  validate_media b =
      let media = open_media b in
      elim media.1 [
        | err e ↦ (media.0, err e)
        | ok info ↦ (media.0 ++ closed media_file ∷ [], close_result files.close_media)
      ]

  -- What follows the checks: the root is opened, and stays open only if the media is good.
  unfoldable pub open_book : String → Descriptor → String → Traced Book
  open_book name d author = elim (files.open_root (files.dir name)) [
    | some cause ↦ ([], err (root_not_opened cause))
    | none ↦
        let loaded : Book = record {
          title = d.title;
          author = author;
          media_name = d.mp3;
          root = files.dir name;
        } in
        let media = validate_media loaded in
        elim media.1 [
          | err e ↦ (opened root_dir ∷ media.0 ++ closed root_dir ∷ [], err e)
          | ok _ ↦ (opened root_dir ∷ media.0, ok loaded)
        ]
  ]

  -- What is done with an open descriptor.
  unfoldable pub load_open : String → Traced Book
  load_open name = elim (files.decode name) [
    | err cause ↦ ([], err (not_decoded cause))
    | ok d ↦ elim (reject_trailing_json (files.read_value name) >> check_descriptor d) [
      | err e ↦ ([], err e)
      | ok author ↦ open_book name d author
    ]
  ]

  unfoldable pub load_book : String → Traced Book
  load_book name = elim (files.open_file name) [
    | some cause ↦ ([], err (not_opened cause))
    | none ↦
        let loaded = load_open name in
        (opened descriptor_file ∷ loaded.0 ++ closed descriptor_file ∷ [], loaded.1)
  ]
