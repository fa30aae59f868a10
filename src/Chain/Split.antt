-- ===== src/Chain/Split.antt =====
-- How a bundle splits into certificates, as a relation, and that `parsePEMChain` follows it.
use billy.Base.{
  Bool-cases, true, str_eq, str_eq_iff, ℕ, zero, suc, ◌<◌, List, [], ◌∷◌, ◌++◌, length, some, ◌≡◌,
  ◌↔◌, refl, sym, ap, ◌∙◌, arith, inl, inr, Option-cases, ◌⊎◌,
}
use mathlib.Core.List.{foldl, append_assoc, append-nil}
use mathlib.Core.Path.{subst}
use billy.Crypto.{Crypto, Block}
use billy.Errors.{Result, ok, err, ◌>>=◌, Error, errorf, untrusted_chain, Result-cases}
use billy.Trim.{trim_space, length-trim_space-le}
use billy.Chain.{ParsedChain, block_certificate, parse_blocks, split_chain, parse_pem_chain}

-- `pem.Decode` takes at least one byte when it finds a block.
abbrev pub Progresses : Crypto → Type 0
Progresses x =
    (s : List ℕ) (block : Block) (rest : List ℕ)
    → x.pem_decode s ≡ some (block, rest)
    → length rest < length s

module _ (x : Crypto) where
  -- `pem.Decode`, again and again on what it leaves without the white space around it, finds these
  -- certificates and nothing else, until nothing is left.
  pub data Splits : List ℕ → List x.Certificate → Type 0 where
    done : Splits [] []
    next :
        {c : ℕ} {s rest : List ℕ} {block : Block} {certificate : x.Certificate}
        {more : List x.Certificate}
        → x.pem_decode (c ∷ s) ≡ some (block, rest)
        → block.type ≡ "CERTIFICATE"
        → x.parse_certificate block.bytes ≡ ok certificate
        → Splits (trim_space rest) more
        → Splits (c ∷ s) (certificate ∷ more)

  block_certificate_ok :
      (block : Block) (certificate : x.Certificate)
      → block_certificate x block ≡ ok certificate
      → (block.type ≡ "CERTIFICATE") × (x.parse_certificate block.bytes ≡ ok certificate)
  unfolding block_certificate
  block_certificate_ok block certificate h = elim (Bool-cases (str_eq block.type "CERTIFICATE")) [
    | inr t ↦ cc (rw (t, block_certificate) at h)
    | inl t ↦ elim (Result-cases (x.parse_certificate block.bytes)) [
      | inr (cause, p) ↦ cc (rw (t, p, block_certificate) at h)
      | inl (found, p) ↦
          let same : found ≡ certificate = cc (rw (t, p, block_certificate) at h) in
          ((str_eq_iff block.type "CERTIFICATE").0 t, p ∙ ap ok same)
    ]
  ]

  ok_of_block :
      (block : Block) (certificate : x.Certificate)
      → block.type ≡ "CERTIFICATE"
      → x.parse_certificate block.bytes ≡ ok certificate
      → block_certificate x block ≡ ok certificate
  unfolding block_certificate
  ok_of_block block certificate t p =
      let named : str_eq block.type "CERTIFICATE" ≡ true = (str_eq_iff _ _).1 t in
      rw (named, p, block_certificate)

  parse_blocks_sound :
      (fuel : ℕ) (s : List ℕ) (before certificates : List x.Certificate)
      → parse_blocks x fuel s before ≡ some (ok certificates)
      → (more : List x.Certificate) × Splits s more × (certificates ≡ before ++ more)
  unfolding parse_blocks
  parse_blocks_sound zero s before certificates h = cc
  parse_blocks_sound (suc fuel) [] before certificates h = ([], Splits.done, cc (append-nil before))
  parse_blocks_sound (suc fuel) (c ∷ s) before certificates h =
      elim (Option-cases (x.pem_decode (c ∷ s))) [
        | inl e ↦ cc (rw (e, parse_blocks) at h)
        | inr ((block, rest), e) ↦ elim (Result-cases (block_certificate x block)) [
          | inr (cause, b) ↦ cc (rw (e, b, parse_blocks) at h)
          | inl (certificate, b) ↦
              let (more, splits, same) =
                parse_blocks_sound fuel (trim_space rest) (before ++ certificate ∷ []) certificates
                  (rw (e, b, parse_blocks) at h) in
              (
                certificate ∷ more,
                Splits.next e (block_certificate_ok block certificate b).0
                    (block_certificate_ok block certificate b).1 splits,
                same ∙ append_assoc before (certificate ∷ []) more,
              )
        ]
      ]

  wrong :
      (block : Block) {e : Error} → block_certificate x block ≡ err e → e ≡ errorf untrusted_chain
  unfolding block_certificate
  wrong block h = ground arith

  module _ (progresses : Progresses x) where
    shorter :
        (c : ℕ) (s rest : List ℕ) (block : Block) (fuel : ℕ)
        → x.pem_decode (c ∷ s) ≡ some (block, rest)
        → length (c ∷ s) < suc fuel
        → length (trim_space rest) < fuel
    shorter c s rest block fuel e h =
        omega (arith, progresses (c ∷ s) block rest e, length-trim_space-le rest)

    parse_blocks_complete :
        (fuel : ℕ) (s : List ℕ) (before more : List x.Certificate)
        → Splits s more
        → length s < fuel
        → parse_blocks x fuel s before ≡ some (ok (before ++ more))
    unfolding parse_blocks
    parse_blocks_complete zero s before more d h = absurd (omega arith)
    parse_blocks_complete (suc fuel) s before more Splits.done h =
        ap (λ l. some (ok l)) (sym (append-nil before))
    parse_blocks_complete (suc fuel) s before more
          (Splits.next {c} {s = t} {rest} {block} {certificate} {more = others} e named p d) h =
        rw (e, ok_of_block block certificate named p, parse_blocks)
          (parse_blocks_complete fuel (trim_space rest) (before ++ certificate ∷ []) others d
              (shorter c t rest block fuel e h)
            ∙ ap (λ l. some (ok l)) (append_assoc before (certificate ∷ []) others))

    parse_blocks_total :
        (fuel : ℕ) (s : List ℕ) (before : List x.Certificate)
        → length s < fuel
        → (r : Result Error (List x.Certificate)) × (parse_blocks x fuel s before ≡ some r)
          × ((e : Error) → r ≡ err e → e ≡ errorf untrusted_chain)
    unfolding parse_blocks
    parse_blocks_total zero s before h = absurd (omega arith)
    parse_blocks_total (suc fuel) [] before h = (ok before, refl, λ e q. cc)
    parse_blocks_total (suc fuel) (c ∷ s) before h = elim (Option-cases (x.pem_decode (c ∷ s))) [
      | inl e ↦ (err (errorf untrusted_chain), rw (e, parse_blocks), λ e q. cc)
      | inr ((block, rest), e) ↦ elim (Result-cases (block_certificate x block)) [
        | inr (cause, b) ↦ (err cause, rw (e, b, parse_blocks), λ e q. cc (wrong block b))
        | inl (certificate, b) ↦
            let (r, run, fails) =
              parse_blocks_total fuel (trim_space rest) (before ++ certificate ∷ [])
                (shorter c s rest block fuel e h) in
            (r, rw (e, b, parse_blocks) run, fails)
      ]
    ]

  parse_of_blocks :
      (bundle : List ℕ) {r : Result Error (List x.Certificate)}
      → parse_blocks x (suc (length bundle)) (trim_space bundle) [] ≡ some r
      → parse_pem_chain x bundle ≡ some (r >>= split_chain x)
  unfolding parse_pem_chain
  parse_of_blocks bundle h = rw (h, parse_pem_chain)

  -- The chain that a list of certificates makes: the first is the leaf, and the others are added, in
  -- order, to an empty pool.
  abbrev pub chain_of : x.Certificate → List x.Certificate → ParsedChain x
  chain_of leaf others = record {
    leaf = leaf;
    intermediates = foldl x.add_cert x.new_cert_pool others;
  }

  split_chain_of_ok :
      (certificates : List x.Certificate) (chain : ParsedChain x)
      → split_chain x certificates ≡ ok chain
      → (leaf : x.Certificate) × (others : List x.Certificate) × (certificates ≡ leaf ∷ others)
        × (chain ≡ chain_of leaf others)
  unfolding split_chain
  split_chain_of_ok [] chain h = cc
  split_chain_of_ok (leaf ∷ others) chain h = (leaf, others, refl, cc)

  split_chain_error :
      (certificates : List x.Certificate) (e : Error)
      → split_chain x certificates ≡ err e
      → e ≡ errorf untrusted_chain
  unfolding split_chain
  split_chain_error [] e h = cc
  split_chain_error (leaf ∷ others) e h = cc

  pub parse_pem_chain_total :
      (bundle : List ℕ)
      → Progresses x
      → (r : Result Error (ParsedChain x)) × (parse_pem_chain x bundle ≡ some r)
        × ((e : Error) → r ≡ err e → e ≡ errorf untrusted_chain)
  parse_pem_chain_total bundle progresses =
      let (r, run, fails) =
        parse_blocks_total progresses (suc (length bundle)) (trim_space bundle) []
          (omega (arith, length-trim_space-le bundle)) in
      (r >>= split_chain x, parse_of_blocks bundle run, λ e q. failure r fails e q)
    where
      failure :
          (r : Result Error (List x.Certificate))
          → ((e : Error) → r ≡ err e → e ≡ errorf untrusted_chain)
          → (e : Error) → (r >>= split_chain x) ≡ err e
          → e ≡ errorf untrusted_chain
      failure (ok certificates) fails e q = split_chain_error certificates e q
      failure (err e') fails e q = cc (fails e' refl)

  -- `parsePEMChain` always returns, if `pem.Decode` takes input whenever it finds a block: a chain, or
  -- the untrusted-chain sentinel.
  pub parse_pem_chain_ended :
      (bundle : List ℕ)
      → Progresses x
      → (parse_pem_chain x bundle ≡ some (err (errorf untrusted_chain)))
        ⊎ ((chain : ParsedChain x) × (parse_pem_chain x bundle ≡ some (ok chain)))
  parse_pem_chain_ended bundle progresses =
      let (r, run, fails) = parse_pem_chain_total bundle progresses in
      elim (Result-cases r) [ inl (chain, q) ↦ inr (chain, cc) | inr (e, q) ↦ inl (cc (fails e q)) ]

  -- If `pem.Decode` takes input whenever it finds a block, then a chain comes from a bundle exactly when
  -- `pem.Decode`, again and again on what it leaves without the white space around it, finds one or
  -- more blocks until nothing is left, each of type CERTIFICATE and each parsed as a certificate: the
  -- leaf is the first, and the others, in order, make the pool of intermediates.
  pub parse_pem_chain-eq-ok_iff :
      (bundle : List ℕ) (chain : ParsedChain x)
      → Progresses x
      → (parse_pem_chain x bundle ≡ some (ok chain)) ↔ (
          (leaf : x.Certificate) × (others : List x.Certificate) × Splits
            (trim_space bundle)
            (leaf ∷ others)
          × (chain ≡ chain_of leaf others))
  parse_pem_chain-eq-ok_iff bundle chain progresses = (sound, complete)
    where
      found :
          (r : Result Error (List x.Certificate))
          → parse_blocks x (suc (length bundle)) (trim_space bundle) [] ≡ some r
          → (r >>= split_chain x) ≡ ok chain
          → (leaf : x.Certificate) × (others : List x.Certificate) × Splits
              (trim_space bundle)
              (leaf ∷ others)
            × (chain ≡ chain_of leaf others)
      found (err e) run q = cc
      found (ok certificates) run q =
          let (leaf, others, listed, same) = split_chain_of_ok certificates chain q in
          let (more, splits, all) =
            parse_blocks_sound (suc (length bundle)) (trim_space bundle) [] certificates run in
          (leaf, others, subst (Splits (trim_space bundle)) (sym all ∙ listed) splits, same)

      sound :
          parse_pem_chain x bundle ≡ some (ok chain)
          → (leaf : x.Certificate) × (others : List x.Certificate) × Splits
              (trim_space bundle)
              (leaf ∷ others)
            × (chain ≡ chain_of leaf others)
      sound h =
          let (r, run, fails) =
            parse_blocks_total progresses (suc (length bundle)) (trim_space bundle) []
              (omega (arith, length-trim_space-le bundle)) in
          found r run (cc (parse_of_blocks bundle run))

      complete :
          (leaf : x.Certificate) × (others : List x.Certificate) × Splits
              (trim_space bundle)
              (leaf ∷ others)
            × (chain ≡ chain_of leaf others)
          → parse_pem_chain x bundle ≡ some (ok chain)
      complete (leaf, others, splits, same) =
          parse_of_blocks bundle (
            parse_blocks_complete progresses (suc (length bundle)) (trim_space bundle) []
              (leaf ∷ others) splits (omega (arith, length-trim_space-le bundle)))
          ∙ ap (λ r. some r) (unfold split_chain in ap ok (sym same))
