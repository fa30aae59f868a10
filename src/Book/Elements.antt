-- ===== src/Book/Elements.antt =====
-- `containsParentElement`: an element between separators that is `..`.
use billy.Base.{
  ℕ, ◌==◌, bytes_eq, bytes_eq_iff, codes, List, [], ◌∷◌, ◌++◌, any, String, Bool, true, false, ◌||◌,
  ◌≡◌, ◌↔◌, ◌⊎◌, refl, sym, ap, ◌∙◌, Bool-cases, inl, inr,
}
use billy.Book.{split_at, filled, is_separator, parent, contains_parent_element}

-- The element is a parent element.
abbrev is_parent : List ℕ → Bool
is_parent element = bytes_eq element parent

-- Leaving out the empty elements loses no parent element.
any-filled : (elements : List (List ℕ)) → any is_parent (filled elements) ≡ any is_parent elements
unfolding bytes_eq
any-filled [] = refl
any-filled ([] ∷ elements) = any-filled elements
any-filled ((r ∷ element) ∷ elements) = rw (any-filled elements)

-- It begins with a slash or a backslash, or is empty.
abbrev pub Starts : List ℕ → Type 0
Starts [] = Unit
Starts (r ∷ s) = (r == b'/' || r == 92) ≡ true

-- It ends with a slash or a backslash, or is empty.
abbrev pub Ends : List ℕ → Type 0
Ends [] = Unit
Ends (r ∷ []) = (r == b'/' || r == 92) ≡ true
Ends (r ∷ s ∷ t) = Ends (s ∷ t)

-- The elements that do not stand first.
abbrev later : List (List ℕ) → List (List ℕ)
later [] = []
later (element ∷ elements) = elements

abbrev first : List (List ℕ) → List ℕ
first [] = []
first (element ∷ elements) = element

-- There is always a first element.
split_cases :
    (s : List ℕ) → (e : List ℕ) × (es : List (List ℕ)) × (split_at is_separator s ≡ e ∷ es)
unfolding split_at
split_cases [] = ([], [], refl)
split_cases (r ∷ s) = elim (Bool-cases (is_separator r)) [
  | inl t ↦ ([], split_at is_separator s, rw (t, split_at))
  | inr t ↦ let (e, es, same) = split_cases s in (r ∷ e, es, rw (t, same, split_at))
]

split_separator :
    (r : ℕ) (s : List ℕ)
    → is_separator r ≡ true
    → split_at is_separator (r ∷ s) ≡ [] ∷ split_at is_separator s
unfolding split_at
split_separator r s t = rw (t, split_at)

split_other :
    (r : ℕ) (s e : List ℕ) (es : List (List ℕ))
    → is_separator r ≡ false
    → split_at is_separator s ≡ e ∷ es
    → split_at is_separator (r ∷ s) ≡ (r ∷ e) ∷ es
unfolding split_at
split_other r s e es t same = rw (t, same, split_at)

-- The first element reaches up to a separator.
first_reaches :
    (s : List ℕ) → (rest : List ℕ) × (s ≡ first (split_at is_separator s) ++ rest) × Starts rest
first_reaches [] = ([], unfold split_at in refl, tt)
first_reaches (r ∷ s) = elim (Bool-cases (is_separator r)) [
  | inl t ↦ (r ∷ s, rw (split_separator r s t), t)
  | inr t ↦
      let (e, es, same) = split_cases s in
      let (rest, reached, starts) = first_reaches s in
      (rest, rw (split_other r s e es t same) (ap (◌∷◌ r) (rw same at reached)), starts)
]

-- What starts with a separator has an empty first element.
first_of_Starts :
    (rest : List ℕ) → Starts rest → (es : List (List ℕ)) × (split_at is_separator rest ≡ [] ∷ es)
unfolding split_at
first_of_Starts [] h = ([], refl)
first_of_Starts (r ∷ s) h = (split_at is_separator s, rw (h, split_at))

-- The text has `..` between separators or its ends.
pub record HasParent (s : List ℕ) : Type 0 where
  pub before : List ℕ
  pub after : List ℕ
  pub same : s ≡ before ++ parent ++ after
  pub ends : Ends before
  pub starts : Starts after

-- The same, and it does not stand at the front.
record HasLater (s : List ℕ) : Type 0 where
  front : ℕ
  before : List ℕ
  after : List ℕ
  same : s ≡ (front ∷ before) ++ parent ++ after
  ends : Ends (front ∷ before)
  starts : Starts after

or_cases : (a b : Bool) → (a || b) ≡ true → (a ≡ true) ⊎ (b ≡ true)
or_cases true b h = inl refl
or_cases false b h = inr h

or_right : (a b : Bool) → b ≡ true → (a || b) ≡ true
or_right true b h = refl
or_right false b h = h

Ends-cons : (r : ℕ) (before : List ℕ) → is_separator r ≡ true → Ends before → Ends (r ∷ before)
Ends-cons r [] t h = t
Ends-cons r (q ∷ before) t h = h

HasParent-of_first : (s : List ℕ) → is_parent (first (split_at is_separator s)) ≡ true → HasParent s
HasParent-of_first s h =
    let (rest, reached, starts) = first_reaches s in
    let named : first (split_at is_separator s) ≡ parent = (bytes_eq_iff _ _).0 h in
    record {
      before = [];
      after = rest;
      same = reached ∙ ap (λ e. e ++ rest) named;
      ends = tt;
      starts = starts;
    }

HasParent-of_later : (s : List ℕ) → HasLater s → HasParent s
HasParent-of_later s l = record {
  before = l.front ∷ l.before;
  after = l.after;
  same = l.same;
  ends = l.ends;
  starts = l.starts;
}

-- What is found is the first element or a later one.
HasParent-of_any :
    (s : List ℕ)
    → (any is_parent (later (split_at is_separator s)) ≡ true → HasLater s)
    → any is_parent (split_at is_separator s) ≡ true
    → HasParent s
HasParent-of_any s found h =
    let (e, es, same) = split_cases s in
    elim (or_cases (is_parent e) (any is_parent es) (rw same at h)) [
      | inl p ↦ HasParent-of_first s (rw same p)
      | inr p ↦ HasParent-of_later s (found (rw same p))
    ]

none_later : ¬ (any is_parent (later (split_at is_separator [])) ≡ true)
unfolding split_at
none_later h = cc

HasLater-of_any : (s : List ℕ) → any is_parent (later (split_at is_separator s)) ≡ true → HasLater s
HasLater-of_any [] h = absurd (none_later h)
HasLater-of_any (r ∷ s) h = elim (Bool-cases (is_separator r)) [
  | inl t ↦
      let p = HasParent-of_any s (HasLater-of_any s) (rw (split_separator r s t) at h) in
      record {
        front = r;
        before = p.before;
        after = p.after;
        same = ap (◌∷◌ r) p.same;
        ends = Ends-cons r p.before t p.ends;
        starts = p.starts;
      }
  | inr t ↦
      let (e, es, same) = split_cases s in
      let behind : any is_parent es ≡ true = rw (split_other r s e es t same) at h in
      let l = HasLater-of_any s (rw same behind) in
      record {
        front = r;
        before = l.front ∷ l.before;
        after = l.after;
        same = ap (◌∷◌ r) l.same;
        ends = l.ends;
        starts = l.starts;
      }
]

any_of_front :
    (after : List ℕ) → Starts after → any is_parent (split_at is_separator (parent ++ after)) ≡ true
any_of_front after starts =
    let (es, same) = first_of_Starts after starts in
    rw
      (split_other b'.' (b'.' ∷ after) (b'.' ∷ []) es refl (split_other b'.' after [] es refl same))
      (unfold bytes_eq in refl)

any_of_later :
    (r : ℕ) (before after : List ℕ)
    → Ends (r ∷ before)
    → Starts after
    → any is_parent (later (split_at is_separator ((r ∷ before) ++ parent ++ after))) ≡ true
any_of_later r [] after ends starts =
    rw (split_separator r (parent ++ after) ends) (any_of_front after starts)
any_of_later r (q ∷ before) after ends starts =
    let s = (q ∷ before) ++ parent ++ after in
    let (e, es, same) = split_cases s in
    let found : any is_parent es ≡ true = rw same at (any_of_later q before after ends starts) in
    elim (Bool-cases (is_separator r)) [
      | inl t ↦ rw (split_separator r s t, same) (or_right (is_parent e) (any is_parent es) found)
      | inr t ↦ rw (split_other r s e es t same) found
    ]

any_of_parent :
    (before after : List ℕ)
    → Ends before
    → Starts after
    → any is_parent (split_at is_separator (before ++ parent ++ after)) ≡ true
any_of_parent [] after ends starts = any_of_front after starts
any_of_parent (r ∷ before) after ends starts =
    let s = (r ∷ before) ++ parent ++ after in
    let (e, es, same) = split_cases s in
    rw same (
      or_right (is_parent e) (any is_parent es)
        (rw same at (any_of_later r before after ends starts)))

-- A name contains a parent element exactly when `..` stands in it between slashes, backslashes or its
-- ends.
pub contains_parent_element_iff :
    (name : String) → (contains_parent_element name ≡ true) ↔ HasParent (codes name)
unfolding contains_parent_element
contains_parent_element_iff name = (
  λ h.
      HasParent-of_any (codes name) (HasLater-of_any (codes name))
        (sym (any-filled (split_at is_separator (codes name))) ∙ h),
  λ p.
      any-filled (split_at is_separator (codes name))
      ∙ (ap (λ s. any is_parent (split_at is_separator s)) p.same
          ∙ any_of_parent p.before p.after p.ends p.starts),
)
