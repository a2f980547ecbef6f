-- ===== src/Tls/Loads.antt =====
-- serve/tls_rustls.rs: what the loaders take, and the protocols that they offer.
use ftl.Prelude.{◌≡◌, ◌↔◌, List, [], ◌∷◌, Result, ok, err, arith}
use ftl.Prelude.Results.{bind_ok}
use ftl.Http.{Text}
use ftl.Strings.{codes}
use ftl.Tls.{
  TlsError, Bytes, Rustls, ServerConfig, secrets, only_key, config_from_der, config_from_pem,
  config_from_pem_file, config_from_pem_chain_file, item_key, built, Source, config_source,
  der_source, pem_source, pem_file_source, pem_chain_file_source, load,
}

only_key-ok : (ks : List Bytes) (k : Bytes) → (only_key ks ≡ ok k) ↔ (ks ≡ k ∷ [])
unfolding only_key
only_key-ok [] k = ground arith
only_key-ok (l ∷ []) k = ground arith
only_key-ok (l ∷ (m ∷ ks)) k = ground arith

module _ {ℓ} {Key Config File : Type ℓ} (r : Rustls Key Config File) where
  -- The protocols that a source offers: the two that are named, or rustls's own.
  abbrev pub offered : Source Config File → List Text
  offered (config_source c) = c.alpn_protocols
  offered (der_source cert key) = codes "h2" ∷ codes "http/1.1" ∷ []
  offered (pem_source cert key) = codes "h2" ∷ codes "http/1.1" ∷ []
  offered (pem_file_source cert key) = codes "h2" ∷ codes "http/1.1" ∷ []
  offered (pem_chain_file_source chain key) = r.default_protocols

  der_offers :
      (cert : List Bytes) (key : Bytes) (c : ServerConfig Config)
      → config_from_der r cert key ≡ ok c
      → c.alpn_protocols ≡ codes "h2" ∷ codes "http/1.1" ∷ []
  unfolding config_from_der
  der_offers cert key c h =
      let (k, _, h') = bind_ok (r.try_from key) _ h in
      let (d, _, h'') = bind_ok (r.with_single_cert cert k) _ h' in cc

  pub config_from_pem-ok :
      (cert key : Text) (c : ServerConfig Config)
      → config_from_pem r cert key ≡ ok c
      → (certs : List Bytes) × (k : Bytes) × (r.certs cert ≡ ok certs)
        × (secrets (r.read_all key) ≡ k ∷ [])
        × (config_from_der r certs k ≡ ok c)
  unfolding config_from_pem
  config_from_pem-ok cert key c h =
      let (certs, e, h') = bind_ok (r.certs cert) _ h in
      let (k, f, h'') = bind_ok (only_key (secrets (r.read_all key))) _ h' in
      (certs, k, e, (only_key-ok (secrets (r.read_all key)) k).0 f, h'')

  pem_offers :
      (cert key : Text) (c : ServerConfig Config)
      → config_from_pem r cert key ≡ ok c
      → c.alpn_protocols ≡ codes "h2" ∷ codes "http/1.1" ∷ []
  pem_offers cert key c h =
      let (certs, k, _, _, d) = config_from_pem-ok cert key c h in der_offers certs k c d

  pem_file_offers :
      (cert key : File) (c : ServerConfig Config)
      → config_from_pem_file r cert key ≡ ok c
      → c.alpn_protocols ≡ codes "h2" ∷ codes "http/1.1" ∷ []
  unfolding config_from_pem_file
  pem_file_offers cert key c h =
      let (x, _, h') = bind_ok (r.read_to_string cert) _ h in
      let (y, _, h'') = bind_ok (r.read_to_string key) _ h' in pem_offers x y c h''

  built_offers :
      (defaults : List Text) (x : Result Config TlsError) (c : ServerConfig Config)
      → built defaults x ≡ ok c
      → c.alpn_protocols ≡ defaults
  built_offers defaults (ok d) c h = cc
  built_offers defaults (err e) c h = cc

  chain_file_offers :
      (chain key : File) (c : ServerConfig Config)
      → config_from_pem_chain_file r chain key ≡ ok c
      → c.alpn_protocols ≡ r.default_protocols
  unfolding config_from_pem_chain_file
  chain_file_offers chain key c h =
      let (x, _, h1) = bind_ok (r.read_to_string chain) _ h in
      let (y, _, h2) = bind_ok (r.read_to_string key) _ h1 in
      let (certs, _, h3) = bind_ok (r.certs x) _ h2 in
      let (i, _, h4) = bind_ok (r.read_one y) _ h3 in
      let (k, _, h5) = bind_ok (item_key r i) _ h4 in
      built_offers r.default_protocols (r.with_single_cert certs k) c h5

  -- A rustls configuration that was loaded from DER, from PEM texts or from PEM files offers h2 and
  -- http/1.1, in this order; one that was loaded from a PEM chain file offers rustls's default
  -- protocols; a configuration that was given offers what it did.
  pub load-offered :
      (s : Source Config File) (c : ServerConfig Config)
      → load r s ≡ ok c
      → c.alpn_protocols ≡ offered s
  unfolding load
  load-offered (config_source d) c h = cc
  load-offered (der_source cert key) c h = der_offers cert key c h
  load-offered (pem_source cert key) c h = pem_offers cert key c h
  load-offered (pem_file_source cert key) c h = pem_file_offers cert key c h
  load-offered (pem_chain_file_source chain key) c h = chain_file_offers chain key c h
