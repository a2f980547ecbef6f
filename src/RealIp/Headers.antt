-- ===== src/RealIp/Headers.antt =====
-- extract/real_ip.rs: the headers against the socket.
use ftl.Prelude.{
  ℕ, ◌≡◌, ◌≢◌, inl, inr, sym, Option, none, some, List, [], ◌∷◌, ◌++◌, ◌>>=◌, All, Option-cases,
  arith,
}
use mathlib.Core.Path.{subst}
use ftl.Http.{Text}
use ftl.Strings.{split, trim, is}
use ftl.Strings.Pieces.{Avoids, split-Avoids, trim-Avoids}
use ftl.RealIp.{
  IpAddr, v6, Parts, header_names, comma_or_colon, next, parse_ip, scan, get_ip_from_headers,
}

module _ {V : Type 0} (to_str : V → Option Text) (from_str : Text → Option IpAddr) where
  -- The headers before the chosen one are missing or do not parse.
  scan_first :
      (headers : Text → Option V) (before after : List Text) (name : Text) (ip : IpAddr)
      → All (λ n. (headers n >>= parse_ip to_str from_str) ≡ none) before
      → (headers name >>= parse_ip to_str from_str) ≡ some ip
      → scan to_str from_str headers (before ++ name ∷ after) ≡ some ip
  unfolding scan
  scan_first headers [] after name ip h e = rw (e, scan)
  scan_first headers (n ∷ before) after name ip (h, hs) e =
      rw (h, scan) (scan_first headers before after name ip hs e)

  get_ip_of_scan :
      (parts : Parts V) (ip : IpAddr)
      → scan to_str from_str parts.headers header_names ≡ some ip
      → get_ip_from_headers to_str from_str parts ≡ some (record { addr = ip })
  unfolding get_ip_from_headers
  get_ip_of_scan parts ip h = rw (h, get_ip_from_headers)

  -- If one of the ten headers holds an address and none of those before it in the list does, this
  -- address is the client's, whatever the later headers and the socket say.
  pub get_ip_first :
      (parts : Parts V) (before after : List Text) (name : Text) (ip : IpAddr)
      → header_names ≡ before ++ name ∷ after
      → All (λ n. (parts.headers n >>= parse_ip to_str from_str) ≡ none) before
      → (parts.headers name >>= parse_ip to_str from_str) ≡ some ip
      → get_ip_from_headers to_str from_str parts ≡ some (record { addr = ip })
  get_ip_first parts before after name ip split h e = get_ip_of_scan parts ip (
      subst (λ names. scan to_str from_str parts.headers names ≡ some ip) (sym split)
        (scan_first parts.headers before after name ip h e))

  -- An IPv6 address is never written without a colon.
  abbrev pub WritesColon : Type 0
  WritesColon = (s : Text) (b : ℕ) → from_str s ≡ some (v6 b) → ¬ Avoids (is b':') s

  no_colon : (s : Text) → Avoids comma_or_colon s → Avoids (is b':') s
  no_colon [] h = tt
  no_colon (c ∷ s) (h, k) = (ground arith, no_colon s k)

  first_piece-Avoids :
      (pieces : List Text) (piece : Text)
      → All (Avoids comma_or_colon) pieces
      → next pieces ≡ some piece
      → Avoids (is b':') (trim piece)
  first_piece-Avoids [] piece h e = cc
  first_piece-Avoids (x ∷ xs) piece (h, _) e =
      let same : x ≡ piece = cc in trim-Avoids (is b':') piece (no_colon piece (rw same at h))

  parse_ip-ne-v6 : WritesColon → (v : V) (b : ℕ) → parse_ip to_str from_str v ≢ some (v6 b)
  unfolding parse_ip
  parse_ip-ne-v6 h v b e = elim (Option-cases (to_str v)) [
    | inl bad ↦ ground arith
    | inr (s, good) ↦ elim (Option-cases (next (split comma_or_colon s))) [
      | inl nothing ↦ ground arith
      | inr (piece, first) ↦
          h (trim piece) b (ground arith) (
            first_piece-Avoids (split comma_or_colon s) piece (split-Avoids comma_or_colon s) first)
    ]
  ]

  scan-ne-v6 :
      WritesColon
      → (headers : Text → Option V) (names : List Text) (b : ℕ)
      → scan to_str from_str headers names ≢ some (v6 b)
  unfolding scan
  scan-ne-v6 h headers [] b e = cc
  scan-ne-v6 h headers (n ∷ names) b e = elim (Option-cases (headers n)) [
    | inl missing ↦ scan-ne-v6 h headers names b (ground arith)
    | inr (v, there) ↦ elim (Option-cases (parse_ip to_str from_str v)) [
      | inl bad ↦ scan-ne-v6 h headers names b (ground arith)
      | inr (ip, good) ↦ parse_ip-ne-v6 h v b (ground arith)
    ]
  ]

  -- If every text that parses as an IPv6 address has a colon, an IPv6 address that is found for a
  -- client is always the socket's own, never one of a header.
  pub get_ip_v6 :
      (parts : Parts V) (b : ℕ)
      → WritesColon
      → get_ip_from_headers to_str from_str parts ≡ some (record { addr = v6 b })
      → parts.socket ≡ some (v6 b)
  unfolding get_ip_from_headers
  get_ip_v6 parts b h e = elim (Option-cases (scan to_str from_str parts.headers header_names)) [
    | inl nothing ↦ ground arith
    | inr (ip, found) ↦ absurd (scan-ne-v6 h parts.headers header_names b (ground arith))
  ]
