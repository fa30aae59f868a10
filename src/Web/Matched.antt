-- ===== src/Web/Matched.antt =====
-- Which requests reach the skill, and what the other answers are not.
use billy.Base.{
  ℕ, bytes_eq, bytes_eq_iff, codes, List, [], ◌∷◌, refl, String, str_eq, str_eq_iff, true, false,
  not, ◌&&◌, ◌≡◌, ◌≢◌, sym, ap, ◌∙◌, any, some, Bool-cases, Option-cases, and-eq-true, inl, inr,
}
use billy.Alexa.Title.{Unicode}
use billy.Book.{open_media, Files, Book, Info, Handle}
use billy.Book.Opened.{still_open, still_open-append, open_media_leaves}
use billy.Errors.{Result, Foreign, Result-cases}
use billy.Url.Clean.{split_slash}
use billy.Web.{
  Content, ContentKind, of_file, in_parts, not_modified, failed, content_type_of, handle_media,
  is_clean, elements, parts_eq, path_fits, Pattern, alexa, handled_by, routes, method_fits,
  find_route, match_request,
}

abbrev pub json_type : String
json_type = "application/json; charset=utf-8"

parts_eq→eq : (ps qs : List (List ℕ)) → parts_eq ps qs ≡ true → ps ≡ qs
unfolding parts_eq
parts_eq→eq [] [] h = refl
parts_eq→eq [] (q ∷ qs) h = cc
parts_eq→eq (p ∷ ps) [] h = cc
parts_eq→eq (p ∷ ps) (q ∷ qs) h =
    let (first, others) = and-eq-true (bytes_eq p q) _ h in
    let same : p ≡ q = (bytes_eq_iff p q).0 first in
    let rest : ps ≡ qs = parts_eq→eq ps qs others in cc

alexa_split : split_slash (codes "/alexa") ≡ [] ∷ codes "alexa" ∷ []
unfolding split_slash
alexa_split = refl

alexa_elements :
    (path : List ℕ)
    → path_fits (codes "/alexa") path ≡ true
    → elements path ≡ [] ∷ codes "alexa" ∷ []
alexa_elements path h = sym (parts_eq→eq _ (elements path) h) ∙ alexa_split

-- Only a POST for /alexa finds the skill's route.
find_alexa :
    (method : String) (path : List ℕ)
    → find_route routes method path ≡ some alexa
    → (method ≡ "POST") × (elements path ≡ [] ∷ codes "alexa" ∷ [])
unfolding find_route
find_alexa method path h =
    elim (Bool-cases (method_fits "GET" method && path_fits (codes "/healthz") path)) [
      | inl t ↦ cc (rw (t, find_route) at h)
      | inr t ↦
          elim (Bool-cases (method_fits "GET" method && path_fits (codes "/media/book.mp3") path)) [
            | inl t' ↦ cc (rw (t, t', find_route) at h)
            | inr t' ↦
                elim (Bool-cases (method_fits "POST" method && path_fits (codes "/alexa") path)) [
                  | inr a ↦ cc (rw (t, t', a, find_route) at h)
                  | inl a ↦
                      let (fits, same) = and-eq-true (method_fits "POST" method) _ a in
                      (
                        sym ((str_eq_iff "POST" method).0 (only_post method fits)),
                        alexa_elements path same,
                      )
                ]
          ]
    ]
  where
    only_post : (m : String) → method_fits "POST" m ≡ true → str_eq "POST" m ≡ true
    only_post m f = elim (Bool-cases (str_eq "POST" m)) [ inl e ↦ e | inr e ↦ cc (rw e at f) ]

pub match_alexa :
    (method : String) (path : List ℕ)
    → match_request method path ≡ handled_by alexa
    → (method ≡ "POST") × (elements path ≡ [] ∷ codes "alexa" ∷ [])
unfolding match_request
match_alexa method path h =
    elim (Bool-cases (not (str_eq method "CONNECT") && not (is_clean path))) [
      | inl c ↦ cc (rw (c, match_request) at h)
      | inr c ↦ elim (Option-cases (find_route routes method path)) [
        | inr (route, f) ↦
            let same : route ≡ alexa = cc (rw (c, f, match_request) at h) in
            find_alexa method path (f ∙ ap some same)
        | inl f ↦ elim (Bool-cases (any (λ (p : Pattern). path_fits p.path path) routes)) [
          | inl k ↦ cc (rw (c, f, k, match_request) at h)
          | inr k ↦ cc (rw (c, f, k, match_request) at h)
        ]
      ]
    ]

pub plain-ne-json : "text/plain; charset=utf-8" ≢ json_type
plain-ne-json e =
    let t : false ≡ true = (str_eq_iff "text/plain; charset=utf-8" json_type).1 e in cc

content-ne-json : (kind : ContentKind) → content_type_of kind ≢ json_type
content-ne-json of_file e = let t : false ≡ true = (str_eq_iff "audio/mpeg" json_type).1 e in cc
content-ne-json in_parts e =
    let t : false ≡ true = (str_eq_iff "multipart/byteranges" json_type).1 e in cc
content-ne-json not_modified e = let t : false ≡ true = (str_eq_iff "" json_type).1 e in cc
content-ne-json failed e = plain-ne-json e

pub media-ne-json :
    (u : Unicode) (files : Files) (serve_content : ℕ → Content) (again : Result Foreign Info)
    (book : Book)
    → (handle_media u files serve_content again book).response.content_type ≢ json_type
unfolding handle_media
media-ne-json u files serve_content again book = elim (Result-cases (open_media u files book).1) [
  | inr (e, o) ↦ rw (o, handle_media) plain-ne-json
  | inl (info, o) ↦ elim (Result-cases again) [
    | inr (cause, a) ↦ rw (o, a, handle_media) plain-ne-json
    | inl (info', a) ↦ rw (o, a, handle_media) (content-ne-json (serve_content info'.mod_time).kind)
  ]
]

-- However it ends, serving the media leaves no more files open than before.
pub handle_media_leaves :
    (u : Unicode) (files : Files) (serve_content : ℕ → Content) (again : Result Foreign Info)
    (book : Book) (held : List Handle)
    → still_open held (handle_media u files serve_content again book).events ≡ held
unfolding handle_media
handle_media_leaves u files serve_content again book held =
    elim (Result-cases (open_media u files book).1) [
      | inr (e, o) ↦ rw (o, handle_media) (rw (open_media_leaves u files book held) (rw o))
      | inl (info, o) ↦ elim (Result-cases again) [
        | inr (cause, a) ↦
            rw (o, a, handle_media, still_open-append held (open_media u files book).0)
              (rw (open_media_leaves u files book held) (rw o))
        | inl (info', a) ↦
            rw (o, a, handle_media, still_open-append held (open_media u files book).0)
              (rw (open_media_leaves u files book held) (rw o))
      ]
    ]
