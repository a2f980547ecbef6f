-- ===== src/Tls/Reloads.antt =====
-- serve/tls_rustls.rs and serve/tls_openssl.rs: what a configuration holds after reloads, and how long an accept takes.
use ftl.Prelude.{
  ℕ, ◌+◌, ◌≤◌, ◌≡◌, refl, ap, ◌∙◌, some, List, [], ◌∷◌, ◌++◌, Result, ok, err, All, arith,
}
use ftl.Accepts.{IoError, Accepting, plus}
use ftl.Accepts.Nested.{timeout_accept-ends}
use ftl.Tls.{store, reload, after_inner, tls_accept}

module _ {ℓ κ μ} {Source : Type ℓ} {Config : Type κ} {E : Type μ}
    (load : Source → Result Config E) where
  -- One reload after the other; each leaves its error to its caller.
  unfoldable pub reloads : List Source → Config → Config
  reloads [] c = c
  reloads (s ∷ ss) c = reloads ss (reload load s c).0

  abbrev pub IsRefused : Source → Type (κ ⊔ μ)
  IsRefused s = (e : E) × (load s ≡ err e)

  reloads_refused : (ss : List Source) (c : Config) → All IsRefused ss → reloads ss c ≡ c
  unfolding reloads reload store
  reloads_refused [] c h = refl
  reloads_refused (s ∷ ss) c ((e, k), h) = rw k (reloads_refused ss c h)

  pub reloads_last :
      (before after : List Source) (s : Source) (c d : Config)
      → load s ≡ ok d
      → All IsRefused after
      → reloads (before ++ s ∷ after) c ≡ d
  unfolding reloads reload store
  reloads_last [] after s c d k h =
      ap (λ x. reloads after (store x c).0) k ∙ reloads_refused after d h
  reloads_last (b ∷ before) after s c d k h = reloads_last before after s (reload load b c).0 d k h

module _ {ℓ} {A B : Type ℓ} where
  after_inner-ends :
      (timeout t : ℕ) (r : Result A IoError) (accept : A → Accepting B)
      → (s : ℕ) × (s ≤ t + timeout) × ((after_inner timeout (some t) r accept).takes ≡ some s)
  unfolding after_inner plus
  after_inner-ends timeout t (err e) accept = (t, omega arith, refl)
  after_inner-ends timeout t (ok a) accept =
      let (s, l, h) = timeout_accept-ends timeout (accept a) in (t + s, omega arith, rw h refl)

  pub tls_accept-ends :
      (timeout t : ℕ) (inner : Accepting A) (accept : A → Accepting B)
      → inner.takes ≡ some t
      → (s : ℕ) × (s ≤ t + timeout) × ((tls_accept timeout inner accept).takes ≡ some s)
  unfolding tls_accept
  tls_accept-ends timeout t inner accept h = rw h (after_inner-ends timeout t inner.comes_to accept)
