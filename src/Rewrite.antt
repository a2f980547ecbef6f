-- ===== src/Rewrite.antt =====
-- rewrite.rs: the service that redirects every request to what a function says. The parts of a request
-- are a parameter, as are the insertion of an authority and the test of a header's value; a panic is
-- `none`.
use ftl.Prelude.{ℕ, Bool, Option, none, some, Result, ok, err, if◌then◌else◌}
use ftl.Http.{Text}
use ftl.Extract.{AuthorityError}

pub data RedirectKind : Type 0 where
  permanent temporary : RedirectKind

unfoldable pub redirect_status : RedirectKind → ℕ
redirect_status permanent = 301
redirect_status temporary = 302

module _ {ℓ} {P Authority : Type ℓ} (extract_authority : P → Result Authority AuthorityError)
    (insert : P → Authority → P) (is_value : Text → Bool) where
  inserted : P → Result Authority AuthorityError → P
  inserted p (ok a) = insert p a
  inserted p (err e) = p

  -- `RewriteService::call`: the status and the location.
  unfoldable pub rewrite : RedirectKind → (P → Text) → P → Option (ℕ × Text)
  unfolding inserted redirect_status
  rewrite kind f p =
      let location = f (inserted p (extract_authority p)) in
      if is_value location then some (redirect_status kind, location) else none
