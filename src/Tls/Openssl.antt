-- ===== src/Tls/Openssl.antt =====
-- serve/tls_openssl.rs: the loaders of an acceptor. The operations of the `openssl` crate are
-- parameters; an error is the crate's.
use ftl.Prelude.{Bool, true, ◌≡◌, refl, Option, none, some, Result, ok, err}
use mathlib.Core.Path.{subst}
use ftl.Prelude.Results.{◌>>=◌, bind_ok}
use ftl.Tls.{Bytes}

pub record Openssl {ℓ} (Cert Key Builder File E : Type ℓ) : Type ℓ where
  pub certificate_from_der : Bytes → Result Cert E
  pub certificate_from_pem : Bytes → Result Cert E
  pub private_key_from_der : Bytes → Result Key E
  pub private_key_from_pem : Bytes → Result Key E
  pub mozilla_modern_v5 : Result Builder E
  pub set_certificate : Cert → Builder → Result Builder E
  pub set_private_key : Key → Builder → Result Builder E
  pub set_certificate_file : File → Builder → Result Builder E
  pub set_certificate_chain_file : File → Builder → Result Builder E
  pub set_private_key_file : File → Builder → Result Builder E
  pub check_private_key : Builder → Result (Unit {ℓ}) E

-- `SslAcceptor`: what it was built from, and whether `alpn_select` is its callback.
pub record Acceptor {ℓ} (Builder : Type ℓ) : Type ℓ where
  pub builder : Builder
  pub selects : Bool

pub data AlpnError : Type 0 where
  noack : AlpnError

-- `alpn_select`, on what `select_next_proto` answers.
unfoldable pub alpn_select : Option Bytes → Result Bytes AlpnError
alpn_select none = err noack
alpn_select (some p) = ok p

pub data Source {ℓ} (Builder File : Type ℓ) : Type ℓ where
  acceptor_source : Acceptor Builder → Source Builder File
  builder_source : Builder → Source Builder File
  der_source pem_source : Bytes → Bytes → Source Builder File
  pem_file_source pem_chain_file_source : File → File → Source Builder File

module _ {ℓ} {Cert Key Builder File E : Type ℓ} (o : Openssl Cert Key Builder File E) where
  checked : Builder → Result (Unit {ℓ}) E → Result (Acceptor Builder) E
  checked b (ok _) = ok (record { builder = b; selects = true })
  checked b (err e) = err e

  -- The check of the key, the callback, and `build`.
  unfoldable pub build : Builder → Result (Acceptor Builder) E
  unfolding checked
  build b = checked b (o.check_private_key b)

  unfoldable pub config_from_der : Bytes → Bytes → Result (Acceptor Builder) E
  unfolding build
  config_from_der cert key = do
    c ← o.certificate_from_der cert
    k ← o.private_key_from_der key
    b ← o.mozilla_modern_v5
    b' ← o.set_certificate c b
    b'' ← o.set_private_key k b'
    build b''

  unfoldable pub config_from_pem : Bytes → Bytes → Result (Acceptor Builder) E
  unfolding build
  config_from_pem cert key = do
    c ← o.certificate_from_pem cert
    k ← o.private_key_from_pem key
    b ← o.mozilla_modern_v5
    b' ← o.set_certificate c b
    b'' ← o.set_private_key k b'
    build b''

  unfoldable pub config_from_pem_file : File → File → Result (Acceptor Builder) E
  unfolding build
  config_from_pem_file cert key = do
    b ← o.mozilla_modern_v5
    b' ← o.set_certificate_file cert b
    b'' ← o.set_private_key_file key b'
    build b''

  unfoldable pub config_from_pem_chain_file : File → File → Result (Acceptor Builder) E
  unfolding build
  config_from_pem_chain_file chain key = do
    b ← o.mozilla_modern_v5
    b' ← o.set_certificate_chain_file chain b
    b'' ← o.set_private_key_file key b'
    build b''

  -- `from_acceptor`, `try_from`, `from_der`, `from_pem`, `from_pem_file` and `from_pem_chain_file`
  unfoldable pub load : Source Builder File → Result (Acceptor Builder) E
  unfolding config_from_der config_from_pem config_from_pem_file config_from_pem_chain_file
  load (acceptor_source a) = ok a
  load (builder_source b) = build b
  load (der_source cert key) = config_from_der cert key
  load (pem_source cert key) = config_from_pem cert key
  load (pem_file_source cert key) = config_from_pem_file cert key
  load (pem_chain_file_source chain key) = config_from_pem_chain_file chain key

  -- The key of the acceptor fits its certificate, and `alpn_select` is its callback.
  pub record IsChecked (a : Acceptor Builder) : Type ℓ where
    pub fits : o.check_private_key a.builder ≡ ok tt
    pub selects : a.selects ≡ true

  checked-IsChecked :
      (b : Builder) (x : Result (Unit {ℓ}) E) (a : Acceptor Builder)
      → o.check_private_key b ≡ x
      → checked b x ≡ ok a
      → IsChecked a
  unfolding checked
  checked-IsChecked b (ok u) a e h =
      let made : Acceptor Builder = record { builder = b; selects = true } in
      let same : made ≡ a = cc in subst IsChecked same (record { fits = e; selects = refl })
  checked-IsChecked b (err u) a e h = cc

  build-IsChecked : (b : Builder) (a : Acceptor Builder) → build b ≡ ok a → IsChecked a
  unfolding build
  build-IsChecked b a h = checked-IsChecked b (o.check_private_key b) a refl h

  -- With a certificate and a key set, one after the other.
  set_then_build :
      (m n : Builder → Result Builder E) (s : Result Builder E) (a : Acceptor Builder)
      → (s >>= λ b. m b >>= λ b'. n b' >>= λ b''. build b'') ≡ ok a
      → IsChecked a
  set_then_build m n s a h =
      let (b, _, h1) = bind_ok s _ h in
      let (b', _, h2) = bind_ok (m b) _ h1 in
      let (b'', _, h3) = bind_ok (n b') _ h2 in build-IsChecked b'' a h3

  -- Whether the source is an acceptor that was built elsewhere.
  abbrev pub IsBuilt : Source Builder File → Type 0
  IsBuilt (acceptor_source a) = ⊥
  IsBuilt _ = Unit

  pub load-IsChecked :
      (s : Source Builder File) (a : Acceptor Builder) → IsBuilt s → load s ≡ ok a → IsChecked a
  unfolding load config_from_der config_from_pem config_from_pem_file config_from_pem_chain_file
  load-IsChecked (acceptor_source c) a t h = absurd t
  load-IsChecked (builder_source b) a t h = build-IsChecked b a h
  load-IsChecked (der_source cert key) a t h =
      let (c, _, h1) = bind_ok (o.certificate_from_der cert) _ h in
      let (k, _, h2) = bind_ok (o.private_key_from_der key) _ h1 in
      set_then_build (o.set_certificate c) (o.set_private_key k) o.mozilla_modern_v5 a h2
  load-IsChecked (pem_source cert key) a t h =
      let (c, _, h1) = bind_ok (o.certificate_from_pem cert) _ h in
      let (k, _, h2) = bind_ok (o.private_key_from_pem key) _ h1 in
      set_then_build (o.set_certificate c) (o.set_private_key k) o.mozilla_modern_v5 a h2
  load-IsChecked (pem_file_source cert key) a t h =
      set_then_build (o.set_certificate_file cert) (o.set_private_key_file key) o.mozilla_modern_v5
        a h
  load-IsChecked (pem_chain_file_source chain key) a t h =
      set_then_build (o.set_certificate_chain_file chain) (o.set_private_key_file key)
        o.mozilla_modern_v5 a h
