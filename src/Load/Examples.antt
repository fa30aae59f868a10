-- ===== src/Load/Examples.antt =====
-- Instances of the theorems on a load, with concrete stand-ins for the libraries.
use billy.Base.{none, codes, [], ◌∷◌, ◌≡◌, refl, some}
use billy.Base.Int.{pos}
use billy.Cache.{lookup, get, make_room, put, new_cert_cache}
use billy.Chain.{
  ParsedChain, block_certificate, parse_blocks, split_chain, parse_pem_chain, roots_of,
  validate_chain, verify_certificate_hostname,
}
use billy.Errors.{ok}
use billy.Fetch.{
  fetch_http_client, client_do, read_limited, read_bundle, fetch_certificate_chain_once,
  fetch_attempts, fetch_certificate_chain,
}
use billy.Load.{check_chain, settle, checked_bundle, load_certificate_chain}
use billy.Load.Trust.{IsUsable, load_certificate_chain-IsUsable}
use billy.Toy.{toy, network}
use billy.Trim.{trim_space}

program : Unit {0}
unfolding billy.Trim.trim_front billy.Trim.ascii_space billy.Trim.two_byte_space trim_space
    block_certificate parse_blocks split_chain parse_pem_chain roots_of validate_chain
    verify_certificate_hostname lookup get make_room put fetch_http_client client_do read_limited
    read_bundle fetch_certificate_chain_once fetch_attempts fetch_certificate_chain check_chain
    settle checked_bundle load_certificate_chain
program = tt

abbrev loaded : ParsedChain toy
loaded = record { leaf = b'A'; intermediates = b'B' ∷ [] }

load_runs :
    (load_certificate_chain toy network none
      (some [])
      new_cert_cache
      new_cert_cache
      []
      0
      (codes "u")
      (pos 5)).result
    ≡ some (ok loaded)
unfolding program
load_runs = refl

load_certificate_chain-IsUsable_example : IsUsable toy (some []) loaded (pos 5)
load_certificate_chain-IsUsable_example =
    load_certificate_chain-IsUsable toy (some []) network none new_cert_cache new_cert_cache [] 0
      (codes "u") (pos 5) loaded tt tt load_runs
