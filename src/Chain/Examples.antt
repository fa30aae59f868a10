-- ===== src/Chain/Examples.antt =====
-- Instances of the theorems on `parsePEMChain`.
use billy.Base.{ℕ, codes, List, [], ◌∷◌, ◌≡◌, ◌↔◌, some}
use billy.Chain.{parse_pem_chain}
use billy.Chain.Split.{Splits, chain_of, parse_pem_chain-eq-ok_iff}
use billy.Errors.{ok}
use billy.Toy.{toy, toy-Progresses}
use billy.Trim.{trim_space}

parse_pem_chain-eq-ok_iff_example :
    (parse_pem_chain toy (codes "AB") ≡ some (ok (chain_of toy b'A' (b'B' ∷ [])))) ↔ (
      (leaf : ℕ) × (others : List ℕ) × Splits toy (trim_space (codes "AB")) (leaf ∷ others)
      × (chain_of toy b'A' (b'B' ∷ []) ≡ chain_of toy leaf others))
parse_pem_chain-eq-ok_iff_example =
    parse_pem_chain-eq-ok_iff toy (codes "AB") (chain_of toy b'A' (b'B' ∷ [])) toy-Progresses
