-- ===== src/RealIp.antt =====
-- extract/real_ip.rs: the client's address from the headers or the socket. An IPv6 address is its
-- 128 bits. Header values, `HeaderValue::to_str` and `IpAddr::from_str` are parameters.
use ftl.Prelude.{
  ℕ, ◌+◌, ◌*◌, ◌/◌, ◌^◌, Bool, ◌||◌, Option, none, some, List, [], ◌∷◌, Result, ok, err, ◌==◌,
  ◌>>=◌,
}
use ftl.Http.{Text}
use ftl.Strings.{codes, split, trim}
pub mod Headers
pub mod Mask

pub data IpAddr : Type 0 where
  v4 v6 : ℕ → IpAddr

pub record RealIp : Type 0 where
  pub addr : IpAddr

pub record RealIpPrivacyMask : Type 0 where
  pub ip : RealIp

-- `bits & 0xFFFF_FFFF_FFFF_FFFF_0000_0000_0000_0000` of 128 bits.
unfoldable pub mask_bits : ℕ → ℕ
mask_bits bits = bits / 2 ^ 64 * 2 ^ 64

unfoldable pub mask_addr : IpAddr → IpAddr
unfolding mask_bits
mask_addr (v4 a) = v4 a
mask_addr (v6 a) = v6 (mask_bits a)

-- `From<RealIp> for RealIpPrivacyMask`
unfoldable pub privacy_mask : RealIp → RealIpPrivacyMask
unfolding mask_addr
privacy_mask ip = record { ip = record { addr = mask_addr ip.addr } }

-- `static HEADERS`
abbrev pub header_names : List Text
header_names =
    codes "cf-connecting-ip"
    ∷ codes "x-cluster-client-ip"
    ∷ codes "fly-client-ip"
    ∷ codes "fastly-client-ip"
    ∷ codes "cloudfront-viewer-address"
    ∷ codes "x-real-ip"
    ∷ codes "x-forwarded-for"
    ∷ codes "x-original-forwarded-for"
    ∷ codes "true-client-ip"
    ∷ codes "client-ip"
    ∷ []

abbrev pub comma_or_colon : ℕ → Bool
comma_or_colon c = c == b',' || c == b':'

abbrev pub next {ℓ} : {A : Type ℓ} → List A → Option A
next [] = none
next (x ∷ _) = some x

-- What `get_ip_from_headers` reads: `HeaderMap::get` and the `SocketAddr` extension's address.
pub record Parts (V : Type 0) : Type 0 where
  pub headers : Text → Option V
  pub socket : Option IpAddr
  -- the `RealIp` extension
  pub real_ip : Option RealIp

module _ {V : Type 0} (to_str : V → Option Text) (from_str : Text → Option IpAddr) where
  unfoldable pub parse_ip : V → Option IpAddr
  parse_ip v = do s ← to_str v; piece ← next (split comma_or_colon s); from_str (trim piece)

  abbrev or_else : Option RealIp → Option RealIp → Option RealIp
  or_else (some ip) o = some ip
  or_else none o = o

  -- the loop over `HEADERS`
  unfoldable pub scan : (Text → Option V) → List Text → Option IpAddr
  scan headers [] = none
  scan headers (name ∷ names) =
      let rest = scan headers names in
      elim (headers name >>= parse_ip) [ some ip ↦ some ip | none ↦ rest ]

  unfoldable pub get_ip_from_headers : Parts V → Option RealIp
  get_ip_from_headers parts = elim (scan parts.headers header_names) [
    | some ip ↦ some (record { addr = ip })
    | none ↦ do ip ← parts.socket; some (record { addr = ip })
  ]

  -- The extension if there is one, else a scan; `BadRequest` if there is neither.
  unfoldable pub extension_or_scan : Parts V → Option RealIp
  extension_or_scan parts = or_else parts.real_ip (get_ip_from_headers parts)

  -- `RealIp::from_request_parts`; the error has one value, `BadRequest`.
  abbrev ok_or_bad_request {ℓ} : {A : Type ℓ} → Option A → Result A (Unit {0})
  ok_or_bad_request (some a) = ok a
  ok_or_bad_request none = err tt

  unfoldable pub from_request_parts : Parts V → Result RealIp (Unit {0})
  unfolding extension_or_scan
  from_request_parts parts = ok_or_bad_request (extension_or_scan parts)

  unfoldable pub mask_from_request_parts : Parts V → Result RealIpPrivacyMask (Unit {0})
  unfolding extension_or_scan privacy_mask
  mask_from_request_parts parts = elim (extension_or_scan parts) [
    | some ip ↦ ok (privacy_mask ip)
    | none ↦ err tt
  ]

  -- `RealIpLayer::call`, up to the inner service.
  unfoldable pub layer_call : Parts V → Parts V
  layer_call parts = elim (get_ip_from_headers parts) [
    | some ip ↦ record parts { real_ip = some ip }
    | none ↦ parts
  ]
