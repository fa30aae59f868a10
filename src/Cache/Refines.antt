-- ===== src/Cache/Refines.antt =====
-- The methods of the cache carry out the operations of the queue.
use billy.Base.{
  ◌==◌, bytes_eq, bytes_eq_iff, [], ◌∷◌, ◌++◌, length, map, true, false, ◌≡◌, refl, sym, ap, ◌∙◌,
  arith, if◌then◌else◌, none, some, Bool-cases, Option-cases, inl, inr,
}
use mathlib.Core.List.{Permᴰ, map-append}
use mathlib.Core.Path.{subst}
use billy.Cache.{
  Key, Pointer, CacheEntry, CertCache, max_certificate_cache_entries, lookup, replace, delete, get,
  put, remove,
}
use billy.Cache.Entries.{Entries, Distinct, bytes_eq_self, lookup-append, lookup-replace}
use billy.Cache.Fifo.{drop_front, Queue, view, holds, exchange, enqueue, withdraw}
use billy.Cache.Invariant.{IsValid, lookup-drop_front-none, make_room-drop_front}

module _ {A : Type 0} where
  abbrev held : Entries A → Queue A
  held m = map (λ x. (x.0, x.1.chain)) m

  holds-lookup :
      (key : Key) (m : Entries A)
      → holds key (held m) ≡ (elim (lookup key m) [ some e ↦ true | none ↦ false ])
  unfolding holds lookup
  holds-lookup key [] = refl
  holds-lookup key ((k, e) ∷ m) = elim (Bool-cases (bytes_eq k key)) [
    | inl t ↦ rw t
    | inr t ↦ rw t (holds-lookup key m)
  ]

  held-replace :
      (key : Key) (e : CacheEntry A) (m : Entries A)
      → held (replace key e m) ≡ exchange key e.chain (held m)
  unfolding replace exchange
  held-replace key e [] = refl
  held-replace key e ((k, e') ∷ m) = elim (Bool-cases (bytes_eq k key)) [
    | inl t ↦ rw t
    | inr t ↦ rw (t, held-replace key e m)
  ]

  length-held : (m : Entries A) → length (held m) ≡ length m
  length-held [] = refl
  length-held (x ∷ m) = omega (arith, length-held m)

  held-drop_front : (m : Entries A) → held (drop_front m) ≡ drop_front (held m)
  held-drop_front [] = refl
  held-drop_front (x ∷ m) = elim (Bool-cases (length (x ∷ m) == max_certificate_cache_entries)) [
    | inl t ↦
        let t' : (length (held (x ∷ m)) == max_certificate_cache_entries) ≡ true =
          rw (length-held (x ∷ m)) t in
        rw (t, t')
    | inr t ↦
        let t' : (length (held (x ∷ m)) == max_certificate_cache_entries) ≡ false =
          rw (length-held (x ∷ m)) t in
        rw (t, t')
  ]

  -- Whatever order Go's runtime visits the map in, `put` on a valid cache replaces a known key's chain
  -- in place, and otherwise adds the key at the end, after dropping the oldest key if five are held.
  pub view-put :
      (visited : Entries A) (c : CertCache A) (key : Key) (chain : Pointer A)
      → Permᴰ visited c.entries
      → IsValid c
      → view (put visited c key chain) ≡ enqueue key chain (view c)
  unfolding put view enqueue
  view-put visited c key chain d v = elim (Option-cases (lookup key c.entries)) [
    | inr (old, found) ↦
        let h : holds key (held c.entries) ≡ true = rw (holds-lookup key c.entries, found) in
        rw (found, put, h) (held-replace key _ c.entries)
    | inl absent ↦
        let h : holds key (held c.entries) ≡ false = rw (holds-lookup key c.entries, absent) in
        rw (absent, put, h, make_room-drop_front visited c v.ordered d)
          (map-append _ (drop_front c.entries) _
            ∙ ap (λ q. q ++ (key, chain) ∷ []) (held-drop_front c.entries))
  ]

  withdraw_absent :
      (key : Key) (chain : Pointer A) (m : Entries A)
      → lookup key m ≡ none
      → withdraw key chain (held m) ≡ held m
  unfolding withdraw lookup
  withdraw_absent key chain [] h = refl
  withdraw_absent key chain ((k, e) ∷ m) h =
      let t : bytes_eq k key ≡ false = ground arith in
      rw t (ap (◌∷◌ (k, e.chain)) (withdraw_absent key chain m (ground arith)))

  withdraw_found :
      (key : Key) (chain : Pointer A) (m : Entries A) (old : CacheEntry A)
      → Distinct m
      → lookup key m ≡ some old
      → (if old.chain.address == chain.address then held (delete key m) else held m)
        ≡ withdraw key chain (held m)
  unfolding withdraw lookup delete
  withdraw_found key chain [] old h found = absurd (ground arith)
  withdraw_found key chain ((k, e) ∷ m) old (p, h) found = elim (Bool-cases (bytes_eq k key)) [
    | inl t ↦
        let gone : lookup key m ≡ none =
          subst (λ x. lookup x m ≡ none) ((bytes_eq_iff k key).0 t) p in
        let here : e ≡ old = ground arith in
        rw (t, ← here) (ground (arith, withdraw_absent key chain m gone))
    | inr t ↦ rw t (ground (arith, withdraw_found key chain m old h (ground arith)))
  ]

  -- `remove` on a valid cache takes the key away exactly if it still has the chain at that address, and
  -- changes nothing otherwise: a chain that replaced it in the meantime stays.
  pub view-remove :
      (c : CertCache A) (key : Key) (chain : Pointer A)
      → IsValid c
      → view (remove c key chain) ≡ withdraw key chain (view c)
  unfolding remove view
  view-remove c key chain v = elim (Option-cases (lookup key c.entries)) [
    | inl absent ↦ rw (absent, remove) (sym (withdraw_absent key chain c.entries absent))
    | inr (old, found) ↦
        rw (found, remove) (ground (arith, withdraw_found key chain c.entries old v.distinct found))
  ]

  -- What is put is found again, whatever was evicted for it.
  pub get-put_self :
      (visited : Entries A) (c : CertCache A) (key : Key) (chain : Pointer A)
      → Permᴰ visited c.entries
      → IsValid c
      → get (put visited c key chain) key ≡ some chain
  unfolding get put
  get-put_self visited c key chain d v = elim (Option-cases (lookup key c.entries)) [
    | inr (old, found) ↦
        let e : CacheEntry A = record { chain = chain; order = old.order } in
        rw (found, put, get, lookup-replace key key e old c.entries found, bytes_eq_self key)
    | inl absent ↦ rw (
      absent,
      put,
      get,
      make_room-drop_front visited c v.ordered d,
      lookup-append key (drop_front c.entries) key _,
      lookup-drop_front-none key c.entries absent,
      bytes_eq_self key,
    )
  ]
