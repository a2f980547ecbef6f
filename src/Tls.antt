-- ===== src/Tls.antt =====
-- serve/tls_rustls.rs: the acceptor, the loaders of a configuration, and its reloads. What rustls and
-- rustls_pemfile make of certificates and keys, and the files, are parameters; an error is its kind or
-- its text. An `ArcSwap` is the value that it holds.
use ftl.Prelude.{ℕ, Option, none, some, List, [], ◌∷◌, Result, ok, err}
use ftl.Prelude.Results.{◌>>=◌}
use ftl.Http.{Text}
use ftl.Strings.{codes}
use ftl.Accepts.{IoError, Accepting, plus, timeout_accept}
pub mod Openssl
pub mod Reloads
pub mod Loads

pub data TlsError : Type 0 where
  missing_private_key multiple_private_keys no_item wrong_item invalid_certificate : TlsError
  -- any other, by its number
  other : ℕ → TlsError

abbrev pub Bytes : Type 0
Bytes = List ℕ

-- `rustls_pemfile::Item`: the three kinds of private keys, and the others.
pub data Item : Type 0 where
  sec1_key pkcs1_key pkcs8_key : Bytes → Item
  other_item : Item

-- What the other packages do: `PrivateKeyDer::try_from`, `with_single_cert` on the default builder,
-- the protocols that its configuration names, `certs`, `read_all`, `read_one`, and `read_to_string`.
pub record Rustls {ℓ} (Key Config File : Type ℓ) : Type ℓ where
  pub try_from : Bytes → Result Key TlsError
  pub key_of : Bytes → Key
  pub with_single_cert : List Bytes → Key → Result Config TlsError
  pub default_protocols : List Text
  pub certs : Text → Result (List Bytes) TlsError
  pub read_all : Text → List (Result Item TlsError)
  pub read_one : Text → Result (Option Item) TlsError
  pub read_to_string : File → Result Text TlsError

pub record ServerConfig {ℓ} (Config : Type ℓ) : Type ℓ where
  pub config : Config
  pub alpn_protocols : List Text

abbrev pub protocols : List Text
protocols = codes "h2" ∷ codes "http/1.1" ∷ []

-- The closure of `filter_map`.
abbrev pub secret : Result Item TlsError → Option Bytes
secret (ok (sec1_key k)) = some k
secret (ok (pkcs1_key k)) = some k
secret (ok (pkcs8_key k)) = some k
secret (ok other_item) = none
secret (err e) = none

abbrev cons_option : Option Bytes → List Bytes → List Bytes
cons_option none ks = ks
cons_option (some k) ks = k ∷ ks

unfoldable pub secrets : List (Result Item TlsError) → List Bytes
secrets [] = []
secrets (i ∷ is) = cons_option (secret i) (secrets is)

-- `keys.next()`, twice.
unfoldable pub only_key : List Bytes → Result Bytes TlsError
only_key [] = err missing_private_key
only_key (k ∷ []) = ok k
only_key (k ∷ (l ∷ ks)) = err multiple_private_keys

-- The builder's configuration as it comes.
abbrev pub built {ℓ} :
    {Config : Type ℓ} → List Text → Result Config TlsError → Result (ServerConfig Config) TlsError
built defaults (ok c) = ok (record { config = c; alpn_protocols = defaults })
built defaults (err e) = err invalid_certificate

module _ {ℓ} {Key Config File : Type ℓ} (r : Rustls Key Config File) where
  unfoldable pub config_from_der : List Bytes → Bytes → Result (ServerConfig Config) TlsError
  config_from_der cert key = do
    k ← r.try_from key
    c ← r.with_single_cert cert k
    ok (record { config = c; alpn_protocols = protocols })

  unfoldable pub config_from_pem : Text → Text → Result (ServerConfig Config) TlsError
  unfolding config_from_der only_key secrets
  config_from_pem cert key = do
    certs ← r.certs cert
    k ← only_key (secrets (r.read_all key))
    config_from_der certs k

  unfoldable pub config_from_pem_file : File → File → Result (ServerConfig Config) TlsError
  unfolding config_from_pem
  config_from_pem_file cert key = do
    c ← r.read_to_string cert
    k ← r.read_to_string key
    config_from_pem c k

  unfoldable pub item_key : Option Item → Result Key TlsError
  item_key none = err no_item
  item_key (some (pkcs8_key k)) = ok (r.key_of k)
  item_key (some (sec1_key k)) = ok (r.key_of k)
  item_key (some (pkcs1_key k)) = ok (r.key_of k)
  item_key (some other_item) = err wrong_item

  unfoldable pub config_from_pem_chain_file : File → File → Result (ServerConfig Config) TlsError
  unfolding item_key
  config_from_pem_chain_file cert chain = do
    c ← r.read_to_string cert
    k ← r.read_to_string chain
    certs ← r.certs c
    item ← r.read_one k
    key ← item_key item
    built r.default_protocols (r.with_single_cert certs key)

-- How a configuration is loaded, for `from_` and `reload_from_`.
pub data Source {ℓ} (Config File : Type ℓ) : Type ℓ where
  config_source : ServerConfig Config → Source Config File
  der_source : List Bytes → Bytes → Source Config File
  pem_source : Text → Text → Source Config File
  pem_file_source pem_chain_file_source : File → File → Source Config File

module _ {ℓ} {Key Config File : Type ℓ} (r : Rustls Key Config File) where
  -- `from_config`, `from_der`, `from_pem`, `from_pem_file` and `from_pem_chain_file`
  unfoldable pub load : Source Config File → Result (ServerConfig Config) TlsError
  unfolding config_from_der config_from_pem config_from_pem_file config_from_pem_chain_file
  load (config_source c) = ok c
  load (der_source cert key) = config_from_der r cert key
  load (pem_source cert key) = config_from_pem r cert key
  load (pem_file_source cert key) = config_from_pem_file r cert key
  load (pem_chain_file_source chain key) = config_from_pem_chain_file r chain key

-- The reloads of both TLS files, on how a configuration is loaded: what the `ArcSwap` holds after it,
-- and the result. A load that fails leaves it.
unfoldable pub store {κ μ} :
    {Config : Type κ} {E : Type μ} → Result Config E → Config → Config × Result (Unit {0}) E
store (ok new) old = (new, ok tt)
store (err e) old = (old, err e)

unfoldable pub reload {ℓ κ μ} :
    {Source : Type ℓ} {Config : Type κ} {E : Type μ}
    → (Source → Result Config E)
    → Source
    → Config
    → Config × Result (Unit {0}) E
unfolding store
reload load s old = store (load s) old

-- The acceptors of both TLS files: after the inner acceptor, the handshake has a timeout of its own.
-- `accept` is the handshake with the configuration that is held then.
module _ {ℓ} {A B : Type ℓ} where
  after_inner : ℕ → Option ℕ → Result A IoError → (A → Accepting B) → Accepting B
  unfolding timeout_accept plus
  after_inner timeout t (err e) accept = record { takes = t; comes_to = err e }
  after_inner timeout t (ok stream) accept =
      let handshake = timeout_accept timeout (accept stream) in
      record { takes = plus t handshake.takes; comes_to = handshake.comes_to }

  unfoldable pub tls_accept : ℕ → Accepting A → (A → Accepting B) → Accepting B
  unfolding after_inner
  tls_accept timeout inner accept = after_inner timeout inner.takes inner.comes_to accept
