-- ===== src/Cache/Examples.antt =====
-- Instances of the theorems on the cache: with five keys, the oldest of which a sixth evicts.
use mathlib.Core.List.{Permᴰ}
use billy.Base.{ℕ, bytes_eq, codes, [], ◌∷◌, ◌≡◌, refl, arith}
use billy.Cache.{
  Key, Pointer, CacheEntry, CertCache, lookup, put, remove, delete, oldest, oldest_from, make_room,
}
use billy.Cache.Entries.{Entries}
use billy.Cache.Fifo.{view, enqueue, withdraw}
use billy.Cache.Invariant.{IsValid}
use billy.Cache.Refines.{view-put, view-remove}

abbrev at : ℕ → Pointer ℕ
at n = record { address = n; target = n }

abbrev held : ℕ → Key → Key × CacheEntry ℕ
held n key = (key, record { chain = at n; order = n })

abbrev later : Entries ℕ
later = held 3 (codes "c") ∷ held 4 (codes "d") ∷ held 7 (codes "e") ∷ []

abbrev full : CertCache ℕ
full = record { entries = held 1 (codes "a") ∷ held 2 (codes "b") ∷ later; next = 8 }

-- The map is visited in another order.
abbrev visited : Entries ℕ
visited = held 2 (codes "b") ∷ held 1 (codes "a") ∷ later

visited-Permᴰ : Permᴰ visited full.entries
visited-Permᴰ = Permᴰ.swap refl refl

full-IsValid : IsValid full
unfolding lookup bytes_eq
full-IsValid = record {
  bounded = omega arith;
  distinct = (refl, (refl, (refl, (refl, (refl, tt)))));
  ordered = (
    (omega arith, (omega arith, (omega arith, (omega arith, tt)))),
    (
      (omega arith, (omega arith, (omega arith, tt))),
      ((omega arith, (omega arith, tt)), ((omega arith, tt), (tt, tt))),
    ),
  );
  below = (omega arith, (omega arith, (omega arith, (omega arith, (omega arith, tt)))));
}

evicts_runs :
    (put visited full (codes "f") (at 9)).entries
    ≡ held 2 (codes "b")
      ∷ held 3 (codes "c")
      ∷ held 4 (codes "d")
      ∷ held 7 (codes "e")
      ∷ (codes "f", record { chain = at 9; order = 8 })
      ∷ []
unfolding put lookup bytes_eq make_room delete oldest oldest_from
evicts_runs = refl

view-put_example :
    view (put visited full (codes "f") (at 9)) ≡ enqueue (codes "f") (at 9) (view full)
view-put_example = view-put visited full (codes "f") (at 9) visited-Permᴰ full-IsValid

view-remove_example :
    view (remove full (codes "c") (at 3)) ≡ withdraw (codes "c") (at 3) (view full)
view-remove_example = view-remove full (codes "c") (at 3) full-IsValid
