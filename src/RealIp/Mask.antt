-- ===== src/RealIp/Mask.antt =====
-- extract/real_ip.rs: the privacy mask.
use ftl.Prelude.{ℕ, ◌/◌, ◌^◌, ◌≡◌, ◌↔◌, ap, arith}
use ftl.RealIp.{IpAddr, v4, v6, RealIp, RealIpPrivacyMask, mask_bits, mask_addr, privacy_mask}

mask_bits_iff : (a b : ℕ) → (mask_bits a ≡ mask_bits b) ↔ (a / 2 ^ 64 ≡ b / 2 ^ 64)
unfolding mask_bits
mask_bits_iff a b = omega arith

-- Two clients are one under the mask exactly when they have the same IPv4 address, or the same
-- upper 64 bits of an IPv6 address.
abbrev pub SameNetwork : IpAddr → IpAddr → Type 0
SameNetwork (v4 a) (v4 b) = a ≡ b
SameNetwork (v6 a) (v6 b) = a / 2 ^ 64 ≡ b / 2 ^ 64
SameNetwork _ _ = ⊥

mask_addr_iff : (a b : IpAddr) → (mask_addr a ≡ mask_addr b) ↔ SameNetwork a b
unfolding mask_addr
mask_addr_iff (v4 a) (v4 b) = ground arith
mask_addr_iff (v6 a) (v6 b) = ground (arith, mask_bits_iff a b)
mask_addr_iff (v4 a) (v6 b) = ground arith
mask_addr_iff (v6 a) (v4 b) = ground arith

-- Two addresses are one under the privacy mask exactly when they are the same IPv4 address, or two
-- IPv6 addresses with the same upper bits from the 64th on.
pub privacy_mask_iff :
    (a b : RealIp) → (privacy_mask a ≡ privacy_mask b) ↔ SameNetwork a.addr b.addr
unfolding privacy_mask
privacy_mask_iff a b = (
  λ e. (mask_addr_iff a.addr b.addr).0 (ap (λ (m : RealIpPrivacyMask). m.ip.addr) e),
  λ h i. record { ip = record { addr = (mask_addr_iff a.addr b.addr).1 h i } },
)
