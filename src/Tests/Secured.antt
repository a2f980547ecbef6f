-- ===== src/Tests/Secured.antt =====
-- Runs of serve/tls_rustls.rs and serve/tls_openssl.rs.
use ftl.Prelude.{ℕ, ◌≡◌, refl, some, [], ◌∷◌, ok}
use ftl.Http.{Text}
use ftl.Strings.{codes}
use ftl.Tls.{
  Bytes, pkcs8_key, Rustls, ServerConfig, Source, pem_source, pem_chain_file_source, load,
  config_from_der, config_from_pem, config_from_pem_chain_file, secrets, only_key, item_key,
}
use ftl.Tls.Loads.{offered, load-offered}

ran : Unit {0}
unfolding load config_from_der config_from_pem config_from_pem_chain_file secrets only_key item_key
ran = tt

-- A package in which a text is one certificate and one key.
abbrev one_item : Rustls Bytes ℕ Text
one_item = record {
  try_from = λ k. ok k;
  key_of = λ k. k;
  with_single_cert = λ certs k. ok 7;
  default_protocols = codes "x" ∷ [];
  certs = λ t. ok (t ∷ []);
  read_all = λ t. ok (pkcs8_key t) ∷ [];
  read_one = λ t. ok (some (pkcs8_key t));
  read_to_string = λ p. ok p;
}

abbrev chain : Source ℕ Text
chain = pem_chain_file_source (1 ∷ []) (2 ∷ [])

abbrev served : ServerConfig ℕ
served = record { config = 7; alpn_protocols = codes "x" ∷ [] }

chain_loads : load one_item chain ≡ ok served
unfolding ran
chain_loads = refl

load-offered_example : served.alpn_protocols ≡ offered one_item chain
load-offered_example = load-offered one_item chain served chain_loads

pem_test :
    load one_item (pem_source (1 ∷ []) (2 ∷ []))
    ≡ ok (record { config = 7; alpn_protocols = codes "h2" ∷ codes "http/1.1" ∷ [] })
unfolding ran
pem_test = refl
