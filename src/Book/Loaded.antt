-- ===== src/Book/Loaded.antt =====
-- What a book is known for once it is loaded.
use mathlib.Core.Path.{subst}
use billy.Base.{
  All, sym, ap, ◌∙◌, [], ◌∷◌, ℕ, bytes_eq, codes, List, is_empty, String, Bool, true, false, not,
  ◌≡◌, ◌↔◌, refl, Option, none, some, Bool-cases, Option-cases, inl, inr,
}
use billy.Alexa.Title.{Unicode, normalize_title}
use billy.Errors.{Result, ok, err, ◌>>=◌, Result-cases}
use billy.Trim.{trim_space}
use billy.Book.{
  Files, Descriptor, Book, Info, Trailing, end_of_file, another_value, unreadable, BookError, ◌>>◌,
  refuse, is_blank, contains_parent_element, reject_trailing_json, title_guards, mp3_guards,
  check_author, check_descriptor, open_media, validate_media, open_book, load_open, load_book,
}

>>=-eq-ok :
    {A B : Type 0} (m : Result BookError A) (f : A → Result BookError B) (b : B)
    → (m >>= f) ≡ ok b
    → (a : A) × (m ≡ ok a) × (f a ≡ ok b)
>>=-eq-ok (ok a) f b h = (a, refl, h)
>>=-eq-ok (err e) f b h = cc

-- Every guard was passed.
refuse_ok :
    (guards : List (Bool × BookError))
    → refuse guards ≡ ok tt
    → All (λ guard. guard.0 ≡ false) guards
refuse_ok [] h = tt
refuse_ok ((true, e) ∷ guards) h = cc
refuse_ok ((false, e) ∷ guards) h = (refl, refuse_ok guards h)

not-false : (b : Bool) → not b ≡ false → b ≡ true
not-false true h = refl
not-false false h = cc

module _ (u : Unicode) (files : Files) where
  -- The author that a descriptor gives: none, or a string that is not null.
  pub data IsAuthor : Option (List ℕ) → String → Type 0 where
    absent : IsAuthor none ""
    present :
        (raw : List ℕ) (author : String)
        → bytes_eq (trim_space raw) (codes "null") ≡ false
        → files.unmarshal_string raw ≡ ok author
        → IsAuthor (some raw) author

  -- What the checks demand of the fields.
  pub record IsDescriptor (d : Descriptor) (author : String) : Type 0 where
    pub title : is_blank d.title ≡ false
    pub letters : is_empty (normalize_title u d.title) ≡ false
    pub mp3 : is_blank d.mp3 ≡ false
    pub by : IsAuthor d.author author
    pub relative : files.is_abs d.mp3 ≡ false
    pub inside : contains_parent_element d.mp3 ≡ false
    pub local : files.is_local d.mp3 ≡ true

  IsAuthor-of_ok :
      (raw : Option (List ℕ)) (author : String)
      → check_author u files raw ≡ ok author
      → IsAuthor raw author
  unfolding check_author
  IsAuthor-of_ok none author h =
      let same : "" ≡ author = cc in subst (IsAuthor none) same IsAuthor.absent
  IsAuthor-of_ok (some raw) author h =
      elim (Bool-cases (bytes_eq (trim_space raw) (codes "null"))) [
        | inl n ↦ cc (rw (n, check_author) at h)
        | inr n ↦ elim (Result-cases (files.unmarshal_string raw)) [
          | inr (cause, e) ↦ cc (rw (n, e, check_author) at h)
          | inl (other, e) ↦
              let same : other ≡ author = cc (rw (n, e, check_author) at h) in
              subst (IsAuthor (some raw)) same (IsAuthor.present raw other n e)
        ]
      ]

  author_accepted :
      (raw : Option (List ℕ)) (author : String)
      → IsAuthor raw author
      → check_author u files raw ≡ ok author
  unfolding check_author
  author_accepted _ _ IsAuthor.absent = refl
  author_accepted _ _ (IsAuthor.present raw author n e) = rw (n, e, check_author)

  descriptor_of_ok :
      (d : Descriptor) (author : String)
      → check_descriptor u files d ≡ ok author
      → IsDescriptor d author
  unfolding check_descriptor
  descriptor_of_ok d author h =
      let (_, first, h1) =
        >>=-eq-ok (refuse (title_guards u files d))
          (λ _. check_author u files d.author >>= λ a. refuse (mp3_guards u files d) >> ok a) author
          h in
      let (by, checked, h2) =
        >>=-eq-ok (check_author u files d.author) (λ a. refuse (mp3_guards u files d) >> ok a)
          author h1 in
      let (_, last, h3) = >>=-eq-ok (refuse (mp3_guards u files d)) (λ _. ok by) author h2 in
      let same : by ≡ author = cc in
      let (title, (letters, (mp3, _))) = refuse_ok (title_guards u files d) first in
      let (relative, (inside, (local, _))) = refuse_ok (mp3_guards u files d) last in
      record {
        title = title;
        letters = letters;
        mp3 = mp3;
        by = IsAuthor-of_ok d.author author (checked ∙ ap ok same);
        relative = relative;
        inside = inside;
        local = not-false (files.is_local d.mp3) local;
      }

  ok_of_descriptor :
      (d : Descriptor) (author : String)
      → IsDescriptor d author
      → check_descriptor u files d ≡ ok author
  unfolding check_descriptor
  ok_of_descriptor d author c = rw (
    c.title,
    c.letters,
    c.mp3,
    author_accepted d.author author c.by,
    c.relative,
    c.inside,
    c.local,
  )

  -- The checks on a descriptor pass exactly when its title is not blank and has a letter, a digit or a
  -- mark, its mp3 is not blank, is relative, has no parent element and is local, and its author, where
  -- present, is a string and not null; and they give that author, or the empty text.
  pub check_descriptor-eq-ok_iff :
      (d : Descriptor) (author : String)
      → (check_descriptor u files d ≡ ok author) ↔ IsDescriptor d author
  check_descriptor-eq-ok_iff d author = (descriptor_of_ok d author, ok_of_descriptor d author)

  -- The media opens below the root and is a regular file.
  pub record HasMedia (b : Book) : Type 0 where
    pub opens : files.open_in b.root b.media_name ≡ none
    pub info : Info
    pub inspected : files.stat b.root b.media_name ≡ ok info
    pub regular : info.is_regular ≡ true

  media_of_ok : (b : Book) (info : Info) → (open_media u files b).1 ≡ ok info → HasMedia b
  unfolding open_media
  media_of_ok b info h = elim (Option-cases (files.open_in b.root b.media_name)) [
    | inr (cause, o) ↦ cc (rw (o, open_media) at h)
    | inl o ↦ elim (Result-cases (files.stat b.root b.media_name)) [
      | inr (cause, s) ↦ cc (rw (o, s, open_media) at h)
      | inl (i, s) ↦ elim (Bool-cases i.is_regular) [
        | inr r ↦ cc (rw (o, s, r, open_media) at h)
        | inl r ↦ record { opens = o; info = i; inspected = s; regular = r }
      ]
    ]
  ]

  media_of_valid : (b : Book) → (validate_media u files b).1 ≡ ok tt → HasMedia b
  unfolding validate_media
  media_of_valid b h = elim (Result-cases (open_media u files b).1) [
    | inr (e, o) ↦ cc (rw (o, validate_media) at h)
    | inl (info, o) ↦ media_of_ok b info o
  ]

  -- What a loaded book comes from.
  pub record IsLoaded (name : String) (b : Book) : Type 0 where
    pub descriptor : Descriptor
    pub decoded : files.decode name ≡ ok descriptor
    pub alone : files.read_value name ≡ end_of_file
    pub checked : IsDescriptor descriptor b.author
    pub title : b.title ≡ descriptor.title
    pub media_name : b.media_name ≡ descriptor.mp3
    pub root : b.root ≡ files.dir name
    pub media : HasMedia b

  trailing_ok : (t : Trailing) → reject_trailing_json t ≡ ok tt → t ≡ end_of_file
  unfolding reject_trailing_json
  trailing_ok end_of_file h = refl
  trailing_ok another_value h = cc
  trailing_ok (unreadable cause) h = cc

  open_book_ok :
      (name : String) (d : Descriptor) (author : String) (b : Book)
      → (open_book u files name d author).1 ≡ ok b
      → (b ≡ record { title = d.title; author = author; media_name = d.mp3; root = files.dir name })
        × HasMedia b
  unfolding open_book
  open_book_ok name d author b h =
      let loaded : Book = record {
        title = d.title;
        author = author;
        media_name = d.mp3;
        root = files.dir name;
      } in
      elim (Option-cases (files.open_root (files.dir name))) [
        | inr (cause, o) ↦ cc (rw (o, open_book) at h)
        | inl o ↦ elim (Result-cases (validate_media u files loaded).1) [
          | inr (e, m) ↦ cc (rw (o, m, open_book) at h)
          | inl (_, m) ↦
              let same : loaded ≡ b = cc (rw (o, m, open_book) at h) in
              (sym same, subst HasMedia same (media_of_valid loaded m))
        ]
      ]

  open_ok : (name : String) (b : Book) → (load_open u files name).1 ≡ ok b → IsLoaded name b
  unfolding load_open
  open_ok name b h = elim (Result-cases (files.decode name)) [
    | inr (cause, e) ↦ cc (rw (e, load_open) at h)
    | inl (d, e) ↦
        elim (Result-cases
          (reject_trailing_json (files.read_value name) >> check_descriptor u files d)) [
            | inr (cause, c) ↦ cc (rw (e, c, load_open) at h)
            | inl (author, c) ↦
                let (same, media) = open_book_ok name d author b (rw (e, c, load_open) at h) in
                let (_, alone, checked) =
                  >>=-eq-ok (reject_trailing_json (files.read_value name))
                    (λ _. check_descriptor u files d) author c in
                record {
                  descriptor = d;
                  decoded = e;
                  alone = trailing_ok (files.read_value name) alone;
                  checked =
                      subst (λ (k : Book). IsDescriptor d k.author) (sym same)
                        (descriptor_of_ok d author checked);
                  title = ap (λ (k : Book). k.title) same;
                  media_name = ap (λ (k : Book). k.media_name) same;
                  root = ap (λ (k : Book). k.root) same;
                  media = media;
                }
          ]
  ]

  -- A book that is loaded is what the descriptor says: one JSON value that decodes, whose fields pass
  -- every check, and whose media is a regular file that opens below the descriptor's directory.
  pub load_book_ok :
      (name : String) (b : Book) → (load_book u files name).1 ≡ ok b → IsLoaded name b
  unfolding load_book
  load_book_ok name b h = elim (Option-cases (files.open_file name)) [
    | inr (cause, o) ↦ cc (rw (o, load_book) at h)
    | inl o ↦ open_ok name b (rw (o, load_book) at h)
  ]
