-- ===== src/RateLimit/UserKey.antt =====
-- layers/rate_limit/mod.rs: `get_user_key`, the key that a request is counted by.
use ftl.Prelude.{Bool, true, Option, none, some, Result, ok, ◌≡◌, arith}
use ftl.Http.{Text}
use ftl.RealIp.Mask.{SameNetwork, privacy_mask_iff}
use ftl.RealIp.{IpAddr, RealIp, RealIpPrivacyMask, Parts, privacy_mask, extension_or_scan}

-- What `same_ty` finds the key's type to be, with the value that `transmute_copy` makes of the
-- type's own; any other type has none.
pub data KeyType (K : Type 0) : Type 0 where
  unit : K → KeyType K
  real_ip : (RealIp → K) → KeyType K
  masked : (RealIpPrivacyMask → K) → KeyType K
  other : KeyType K

module _ {V K R : Type 0} (to_str : V → Option Text) (from_str : Text → Option IpAddr)
    (extract : Parts V → Result K R) where
  abbrev by_ip : (RealIp → K) → Option RealIp → Result K R → Result K R
  by_ip f (some ip) rest = ok (f ip)
  by_ip f none rest = rest

  -- The key of a type that is not `()`.
  abbrev by_type : KeyType K → Parts V → Result K R
  by_type (unit k) parts = ok k
  by_type (real_ip f) parts = by_ip f (extension_or_scan to_str from_str parts) (extract parts)
  by_type (masked f) parts =
      by_ip (λ ip. f (privacy_mask ip)) (extension_or_scan to_str from_str parts) (extract parts)
  by_type other parts = extract parts

  -- `stored` is the key among the extensions, read if `set_ext` is set; `extract` is the key's own
  -- `from_request_parts`.
  unfoldable pub get_user_key : KeyType K → Bool → Option K → Parts V → Result K R
  get_user_key (unit k) extend stored parts = ok k
  get_user_key t true (some k) parts = ok k
  get_user_key t extend stored parts = by_type t parts

  -- With keys of the type `RealIpPrivacyMask` and none stored among the extensions, two requests
  -- whose addresses are found and are in the same network (by the privacy mask) get the same key.
  pub get_user_key_masked :
      (f : RealIpPrivacyMask → K) (extend : Bool) (a b : RealIp) (one two : Parts V)
      → extension_or_scan to_str from_str one ≡ some a
      → extension_or_scan to_str from_str two ≡ some b
      → SameNetwork a.addr b.addr
      → get_user_key (masked f) extend none one ≡ get_user_key (masked f) extend none two
  unfolding get_user_key
  get_user_key_masked f extend a b one two ha hb h =
      let same = (privacy_mask_iff a b).1 h in ground arith
