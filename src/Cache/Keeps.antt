-- ===== src/Cache/Keeps.antt =====
-- What holds of every stored chain goes on holding.
use billy.Base.{
  bytes_eq, ◌==◌, [], ◌∷◌, length, ◌≡◌, arith, All, All-append, some, Bool-cases, Option-cases, inl,
  inr,
}
use mathlib.Core.Path.{subst}
use billy.Cache.{
  Key, Pointer, CacheEntry, CertCache, max_certificate_cache_entries, lookup, replace, get, oldest,
  make_room, put, remove,
}
use billy.Cache.Entries.{Entries, All-delete}

module _ {A : Type 0} (P : Pointer A → Type 0) where
  abbrev pub AllStored : Entries A → Type 0
  AllStored m = All (λ x. P x.1.chain) m

  AllStored-replace :
      (key : Key) (e : CacheEntry A) (m : Entries A)
      → P e.chain
      → AllStored m
      → AllStored (replace key e m)
  unfolding replace
  AllStored-replace key e [] p h = tt
  AllStored-replace key e ((k, e') ∷ m) p (q, h) = elim (Bool-cases (bytes_eq k key)) [
    | inl t ↦ rw t (p, h)
    | inr t ↦ rw t (q, AllStored-replace key e m p h)
  ]

  AllStored-make_room :
      (visited : Entries A) (c : CertCache A)
      → AllStored c.entries
      → AllStored (make_room visited c)
  unfolding make_room
  AllStored-make_room visited c h =
      elim (Bool-cases (length c.entries == max_certificate_cache_entries)) [
        | inl t ↦ rw t (All-delete (oldest visited) (λ x. P x.1.chain) c.entries h)
        | inr t ↦ rw t h
      ]

  pub AllStored-put :
      (visited : Entries A) (c : CertCache A) (key : Key) (chain : Pointer A)
      → P chain
      → AllStored c.entries
      → AllStored (put visited c key chain).entries
  unfolding put
  AllStored-put visited c key chain p h = elim (Option-cases (lookup key c.entries)) [
    | inr (old, found) ↦ rw (found, put) (AllStored-replace key _ c.entries p h)
    | inl absent ↦
        rw (absent, put)
          (All-append (λ x. P x.1.chain) (make_room visited c) _ (AllStored-make_room visited c h)
            (p, tt))
  ]

  pub AllStored-remove :
      (c : CertCache A) (key : Key) (chain : Pointer A)
      → AllStored c.entries
      → AllStored (remove c key chain).entries
  unfolding remove
  AllStored-remove c key chain h = elim (Option-cases (lookup key c.entries)) [
    | inl absent ↦ rw (absent, remove) h
    | inr (old, found) ↦ elim (Bool-cases (old.chain.address == chain.address)) [
      | inl t ↦ rw (found, remove, t) (All-delete key (λ x. P x.1.chain) c.entries h)
      | inr t ↦ rw (found, remove, t) h
    ]
  ]

  AllStored-lookup :
      (key : Key) (m : Entries A) (e : CacheEntry A)
      → AllStored m
      → lookup key m ≡ some e
      → P e.chain
  unfolding lookup
  AllStored-lookup key [] e h found = cc
  AllStored-lookup key ((k, e') ∷ m) e (p, h) found = elim (Bool-cases (bytes_eq k key)) [
    | inl t ↦ let same : e' ≡ e = ground arith in subst (λ (y : CacheEntry A). P y.chain) same p
    | inr t ↦ AllStored-lookup key m e h (ground arith)
  ]

  pub AllStored-get :
      (c : CertCache A) (key : Key) (chain : Pointer A)
      → AllStored c.entries
      → get c key ≡ some chain
      → P chain
  unfolding get
  AllStored-get c key chain h found = elim (Option-cases (lookup key c.entries)) [
    | inl absent ↦ cc (rw (absent, get) at found)
    | inr (e, here) ↦
        let same : e.chain ≡ chain = cc (rw (here, get) at found) in
        subst P same (AllStored-lookup key c.entries e h here)
  ]
