-- ===== src/Cache/Invariant.antt =====
-- The invariant of the cache, and that each method keeps it.
use billy.Base.{
  ℕ, ◌+◌, ◌%◌, ◌^◌, ◌<◌, ◌≤◌, ◌==◌, bytes_eq_iff, [], ◌∷◌, ◌++◌, length, length-append, ◌≡◌, refl,
  arith, All, All-append, if◌then◌else◌, none, Bool-cases, Option-cases, inl, inr,
}
use mathlib.Core.List.{Permᴰ}
use billy.Cache.{
  Key, Pointer, CacheEntry, CertCache, max_certificate_cache_entries, new_cert_cache, lookup,
  delete, oldest, make_room, put, remove,
}
use billy.Cache.Entries.{
  Entries, Distinct, Increasing, bytes_eq_self, lookup-append, length-replace, length-delete-le,
  All-replace, All-delete, Increasing-replace, Increasing-delete, Distinct-replace, Distinct-delete,
}
use billy.Cache.Fifo.{tail, drop_front}
use billy.Cache.Oldest.{oldest_of_perm}

module _ {A : Type 0} where
  pub record IsValid (c : CertCache A) : Type 0 where
    pub bounded : length c.entries ≤ max_certificate_cache_entries
    pub distinct : Distinct c.entries
    pub ordered : Increasing c.entries
    pub below : All (λ x. x.1.order < c.next) c.entries

  evicts_front :
      (visited m : Entries A) → Increasing m → Permᴰ visited m → delete (oldest visited) m ≡ tail m
  unfolding delete
  evicts_front visited [] h d = refl
  evicts_front visited ((k, e) ∷ m) (p, h) d =
      rw (oldest_of_perm k e m visited p d, bytes_eq_self k)

  pub make_room-drop_front :
      (visited : Entries A) (c : CertCache A)
      → Increasing c.entries
      → Permᴰ visited c.entries
      → make_room visited c ≡ drop_front c.entries
  unfolding make_room
  make_room-drop_front visited c h d =
      elim (Bool-cases (length c.entries == max_certificate_cache_entries)) [
        | inl t ↦ rw t (evicts_front visited c.entries h d)
        | inr t ↦ rw t
      ]

  length-drop_front-lt :
      (m : Entries A)
      → length m ≤ max_certificate_cache_entries
      → length (drop_front m) < max_certificate_cache_entries
  length-drop_front-lt [] h = omega arith
  length-drop_front-lt (x ∷ m) h = ground arith

  All-drop_front :
      (P : Key × CacheEntry A → Type 0) (m : Entries A) → All P m → All P (drop_front m)
  All-drop_front P [] h = h
  All-drop_front P (x ∷ m) (p, h) =
      elim (Bool-cases (length (x ∷ m) == max_certificate_cache_entries)) [
        | inl t ↦ rw t h
        | inr t ↦ rw t (p, h)
      ]

  Increasing-drop_front : (m : Entries A) → Increasing m → Increasing (drop_front m)
  Increasing-drop_front [] h = h
  Increasing-drop_front (x ∷ m) (p, h) =
      elim (Bool-cases (length (x ∷ m) == max_certificate_cache_entries)) [
        | inl t ↦ rw t h
        | inr t ↦ rw t (p, h)
      ]

  Distinct-drop_front : (m : Entries A) → Distinct m → Distinct (drop_front m)
  Distinct-drop_front [] h = h
  Distinct-drop_front (x ∷ m) (p, h) =
      elim (Bool-cases (length (x ∷ m) == max_certificate_cache_entries)) [
        | inl t ↦ rw t h
        | inr t ↦ rw t (p, h)
      ]

  pub lookup-drop_front-none :
      (k : Key) (m : Entries A) → lookup k m ≡ none → lookup k (drop_front m) ≡ none
  unfolding lookup
  lookup-drop_front-none k [] h = refl
  lookup-drop_front-none k ((k', e) ∷ m) h = ground arith

  Distinct-append :
      (key : Key) (e : CacheEntry A) (m : Entries A)
      → Distinct m
      → lookup key m ≡ none
      → Distinct (m ++ (key, e) ∷ [])
  unfolding lookup
  Distinct-append key e [] h absent = (refl, tt)
  Distinct-append key e ((k, e') ∷ m) (p, h) absent = (
    rw (lookup-append key m k e, p) (ground (arith, bytes_eq_iff key k, bytes_eq_iff k key)),
    Distinct-append key e m h (ground arith),
  )

  Increasing-append :
      (key : Key) (e : CacheEntry A) (m : Entries A)
      → Increasing m
      → All (λ x. x.1.order < e.order) m
      → Increasing (m ++ (key, e) ∷ [])
  Increasing-append key e [] h b = (tt, tt)
  Increasing-append key e ((k, e') ∷ m) (p, h) (b, bs) = (
    All-append (λ x. e'.order < x.1.order) m ((key, e) ∷ []) p (b, tt),
    Increasing-append key e m h bs,
  )

  -- `newCertCache` is valid.
  pub new_cert_cache-IsValid : IsValid (new_cert_cache {A = A})
  new_cert_cache-IsValid = record { bounded = omega arith; distinct = tt; ordered = tt; below = tt }

  below_next :
      (n : ℕ) (m : Entries A)
      → n + 1 < 2 ^ 64
      → All (λ x. x.1.order < n) m
      → All (λ x. x.1.order < (n + 1) % 2 ^ 64) m
  below_next n [] small h = tt
  below_next n (x ∷ m) small (p, h) = (omega arith, below_next n m small h)

  -- A new entry at the end, with room made for it.
  appended-IsValid :
      (c : CertCache A) (key : Key) (chain : Pointer A)
      → c.next + 1 < 2 ^ 64
      → IsValid c
      → lookup key c.entries ≡ none
      → IsValid (record {
        entries = drop_front c.entries ++ (key, record { chain = chain; order = c.next }) ∷ [];
        next = (c.next + 1) % 2 ^ 64;
      })
  appended-IsValid c key chain small v absent =
      let e : CacheEntry A = record { chain = chain; order = c.next } in
      let kept = drop_front c.entries in
      record {
        bounded =
            omega
              (arith, length-append kept ((key, e) ∷ []), length-drop_front-lt c.entries v.bounded);
        distinct =
            Distinct-append key e kept (Distinct-drop_front c.entries v.distinct)
              (lookup-drop_front-none key c.entries absent);
        ordered =
            Increasing-append key e kept (Increasing-drop_front c.entries v.ordered)
              (All-drop_front (λ x. x.1.order < c.next) c.entries v.below);
        below =
            All-append (λ x. x.1.order < (c.next + 1) % 2 ^ 64) kept ((key, e) ∷ [])
              (below_next c.next kept small
                (All-drop_front (λ x. x.1.order < c.next) c.entries v.below))
              (omega arith, tt);
      }

  -- `put` keeps the invariant, in whatever order the map is visited, as long as fewer than 2 ^ 64 - 1
  -- chains have been put.
  pub put-IsValid :
      (visited : Entries A) (c : CertCache A) (key : Key) (chain : Pointer A)
      → Permᴰ visited c.entries
      → c.next + 1 < 2 ^ 64
      → IsValid c
      → IsValid (put visited c key chain)
  unfolding put
  put-IsValid visited c key chain d small v = elim (Option-cases (lookup key c.entries)) [
    | inr (old, found) ↦
        let e : CacheEntry A = record { chain = chain; order = old.order } in
        rw (found, put)
          (record {
            bounded = omega (arith, length-replace key e c.entries, v.bounded);
            distinct = Distinct-replace key e c.entries v.distinct;
            ordered = Increasing-replace key e old c.entries found refl v.ordered;
            below = All-replace key (λ n. n < c.next) e old c.entries found refl v.below;
          })
    | inl absent ↦
        rw (absent, put, make_room-drop_front visited c v.ordered d)
          (appended-IsValid c key chain small v absent)
  ]

  -- `remove` keeps the invariant.
  pub remove-IsValid :
      (c : CertCache A) (key : Key) (chain : Pointer A) → IsValid c → IsValid (remove c key chain)
  unfolding remove
  remove-IsValid c key chain v = elim (Option-cases (lookup key c.entries)) [
    | inl absent ↦ rw (absent, remove) v
    | inr (old, found) ↦ rw (found, remove) (deleted old)
  ]
    where
      smaller : IsValid (record c { entries = delete key c.entries })
      smaller = record {
        bounded = omega (arith, length-delete-le key c.entries, v.bounded);
        distinct = Distinct-delete key c.entries v.distinct;
        ordered = Increasing-delete key c.entries v.ordered;
        below = All-delete key (λ x. x.1.order < c.next) c.entries v.below;
      }

      deleted :
          (old : CacheEntry A)
          → IsValid (
              if old.chain.address == chain.address
              then record c { entries = delete key c.entries }
              else c)
      deleted old = elim (Bool-cases (old.chain.address == chain.address)) [
        | inl t ↦ rw t smaller
        | inr t ↦ rw t v
      ]
