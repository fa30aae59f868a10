-- ===== src/Book/Opened.antt =====
-- Which files stay open after the calls of book.go.
use billy.Base.{
  ℕ, ◌==◌, List, [], ◌∷◌, ◌++◌, String, if◌then◌else◌, ◌≡◌, refl, Bool-cases, Option-cases, inl,
  inr,
}
use billy.Alexa.Title.{Unicode}
use billy.Errors.{Result, ok, err, Result-cases}
use billy.Book.{
  Files, Descriptor, Book, BookError, Handle, descriptor_file, root_dir, media_file, Event, opened,
  closed, ◌>>◌, reject_trailing_json, check_descriptor, open_media, validate_media, open_book,
  load_open, load_book,
}

abbrev pub number : Handle → ℕ
number descriptor_file = 0
number root_dir = 1
number media_file = 2

-- The handles without the last opened one of this kind.
abbrev pub release : Handle → List Handle → List Handle
release h [] = []
release h (k ∷ held) = if number h == number k then held else k ∷ release h held

-- What is open after some events, the last opened first.
abbrev pub still_open : List Handle → List Event → List Handle
still_open held [] = held
still_open held (opened h ∷ events) = still_open (h ∷ held) events
still_open held (closed h ∷ events) = still_open (release h held) events

pub still_open-append :
    (held : List Handle) (events later : List Event)
    → still_open held (events ++ later) ≡ still_open (still_open held events) later
still_open-append held [] later = refl
still_open-append held (opened h ∷ events) later = still_open-append (h ∷ held) events later
still_open-append held (closed h ∷ events) later = still_open-append (release h held) events later

-- What a result leaves open.
abbrev pub kept {ℓ} : {A : Type ℓ} → List Handle → Result BookError A → List Handle
kept handles (ok a) = handles
kept handles (err e) = []

module _ (u : Unicode) (files : Files) where
  -- The media file stays open exactly if it is returned.
  pub open_media_leaves :
      (b : Book) (held : List Handle)
      → still_open held (open_media u files b).0
        ≡ kept (media_file ∷ []) (open_media u files b).1 ++ held
  unfolding open_media
  open_media_leaves b held = elim (Option-cases (files.open_in b.root b.media_name)) [
    | inr (cause, o) ↦ rw (o, open_media)
    | inl o ↦ elim (Result-cases (files.stat b.root b.media_name)) [
      | inr (cause, s) ↦ rw (o, s, open_media)
      | inl (i, s) ↦ elim (Bool-cases i.is_regular) [
        | inr r ↦ rw (o, s, r, open_media)
        | inl r ↦ rw (o, s, r, open_media)
      ]
    ]
  ]

  validate_media_leaves :
      (b : Book) (held : List Handle) → still_open held (validate_media u files b).0 ≡ held
  unfolding validate_media
  validate_media_leaves b held = elim (Result-cases (open_media u files b).1) [
    | inr (e, o) ↦ rw (o, validate_media) (rw (open_media_leaves b held) (rw o))
    | inl (info, o) ↦
        rw (o, validate_media, still_open-append held (open_media u files b).0)
          (rw (open_media_leaves b held) (rw o))
  ]

  open_book_leaves :
      (name : String) (d : Descriptor) (author : String) (held : List Handle)
      → still_open held (open_book u files name d author).0
        ≡ kept (root_dir ∷ []) (open_book u files name d author).1 ++ held
  unfolding open_book
  open_book_leaves name d author held =
      let loaded : Book = record {
        title = d.title;
        author = author;
        media_name = d.mp3;
        root = files.dir name;
      } in
      elim (Option-cases (files.open_root (files.dir name))) [
        | inr (cause, o) ↦ rw (o, open_book)
        | inl o ↦ elim (Result-cases (validate_media u files loaded).1) [
          | inr (e, m) ↦ rw (
            o,
            m,
            open_book,
            still_open-append (root_dir ∷ held) (validate_media u files loaded).0,
            validate_media_leaves loaded (root_dir ∷ held),
          )
          | inl (_, m) ↦ rw (o, m, open_book, validate_media_leaves loaded (root_dir ∷ held))
        ]
      ]

  load_open_leaves :
      (name : String) (held : List Handle)
      → still_open held (load_open u files name).0
        ≡ kept (root_dir ∷ []) (load_open u files name).1 ++ held
  unfolding load_open
  load_open_leaves name held = elim (Result-cases (files.decode name)) [
    | inr (cause, e) ↦ rw (e, load_open)
    | inl (d, e) ↦
        elim (Result-cases
          (reject_trailing_json (files.read_value name) >> check_descriptor u files d)) [
            | inr (cause, c) ↦ rw (e, c, load_open)
            | inl (author, c) ↦ rw (e, c, load_open) (open_book_leaves name d author held)
          ]
  ]

  closes_descriptor :
      (r : Result BookError Book)
      → still_open (kept (root_dir ∷ []) r ++ descriptor_file ∷ []) (closed descriptor_file ∷ [])
        ≡ kept (root_dir ∷ []) r
  closes_descriptor (ok b) = refl
  closes_descriptor (err e) = refl

  -- After `loadBook` the directory of the descriptor is open exactly if a book is returned, and
  -- nothing else is: on no branch a descriptor, a media file or a directory is left open.
  pub load_book_leaves :
      (name : String)
      → still_open [] (load_book u files name).0 ≡ kept (root_dir ∷ []) (load_book u files name).1
  unfolding load_book
  load_book_leaves name = elim (Option-cases (files.open_file name)) [
    | inr (cause, o) ↦ rw (o, load_book)
    | inl o ↦
        rw
          (
            o,
            load_book,
            still_open-append (descriptor_file ∷ []) (load_open u files name).0
                (closed descriptor_file ∷ []),
            load_open_leaves name (descriptor_file ∷ []),
          )
          (closes_descriptor (load_open u files name).1)
  ]
