-- ===== src/Fetch/Examples.antt =====
-- Instances of the theorems on a fetch.
use billy.Base.{◌≤◌, codes, [], ◌∷◌, length, ◌≡◌, refl, none, All}
use billy.Errors.{ok, err, errorf, cert_fetch}
use billy.Fetch.{
  Network, max_certificate_chain_bytes, fetch_http_client, client_do, read_limited, read_bundle,
  fetch_certificate_chain_once, fetch_attempts, fetch_certificate_chain,
}
use billy.Fetch.Bounds.{Served, fetch_certificate_chain_contacts, fetch_certificate_chain-Served}
use billy.Toy.{network}

program : Unit {0}
unfolding fetch_http_client client_do read_limited read_bundle fetch_certificate_chain_once
    fetch_attempts fetch_certificate_chain
program = tt

abbrev broken : Network
broken = record network { round_trip = λ transport attempt url. err 9 }

served_runs : (fetch_certificate_chain network none (codes "u")).1 ≡ ok (codes "AB")
unfolding program
served_runs = refl

broken_runs :
    fetch_certificate_chain broken none (codes "u")
    ≡ (codes "u" ∷ codes "u" ∷ [], err (errorf cert_fetch))
unfolding program
broken_runs = refl

fails_run : (fetch_certificate_chain broken none (codes "u")).1 ≡ err (errorf cert_fetch)
unfolding program
fails_run = refl

fetch_certificate_chain_contacts_example :
    All (λ u. u ≡ codes "u") (fetch_certificate_chain broken none (codes "u")).0
    × (length (fetch_certificate_chain broken none (codes "u")).0 ≤ 2)
fetch_certificate_chain_contacts_example = fetch_certificate_chain_contacts broken none (codes "u")

fetch_certificate_chain-Served_example :
    Served network (fetch_http_client none) (codes "u") (codes "AB")
    × (length (codes "AB") ≤ max_certificate_chain_bytes)
fetch_certificate_chain-Served_example =
    fetch_certificate_chain-Served network none (codes "u") (codes "AB") served_runs
