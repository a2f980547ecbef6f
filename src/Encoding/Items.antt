-- ===== src/Encoding/Items.antt =====
-- headers/accept_encoding.rs: one item of the `accept-encoding` header.
use ftl.Prelude.{
  ℕ, ◌≤◌, ◌≡◌, ◌≢◌, refl, false, Option, some, [], ◌∷◌, ◌++◌, ◌==◌, All, All-append, arith,
}
use ftl.Http.{Text}
use ftl.Strings.{codes, text_eq, eq_ignore_ascii_case, trim, is, is_empty, is_whitespace}
use ftl.Strings.Pieces.{splitn2_at, Avoids, IsUnspaced, trim_of_IsUnspaced}
use ftl.QValue.{QValue, fmt}
use ftl.QValue.Print.{parse-fmt, fmt-plain}
use ftl.Encoding.{
  AcceptEncoding, Slot, br_slot, deflate_slot, zstd_slot, gzip_slot, slot_of, assign, weight,
  take_slot, wild, unknown, decode_one,
}

abbrev IsPlain : ℕ → Type 0
IsPlain c = (is_whitespace c ≡ false) × ((c == b',') ≡ false) × ((c == b';') ≡ false)

IsPlain-IsUnspaced : (s : Text) → All IsPlain s → IsUnspaced s
IsPlain-IsUnspaced [] h = tt
IsPlain-IsUnspaced (c ∷ s) (h, k) = (h.0, IsPlain-IsUnspaced s k)

IsPlain-Avoids : (s : Text) → All IsPlain s → Avoids (is b',') s
IsPlain-Avoids [] h = tt
IsPlain-Avoids (c ∷ s) (h, k) = (h.1, IsPlain-Avoids s k)

weight-eq : (q : QValue) → q ≤ 1000 → weight (some (codes "q=" ++ fmt q)) ≡ some q
unfolding is_whitespace
weight-eq q h =
    let plain = IsPlain-IsUnspaced (fmt q) (fmt-plain q) in
    rw (trim_of_IsUnspaced (codes "q=" ++ fmt q) (refl, (refl, plain))) (parse-fmt q h)

-- A weight as the encoder writes it.
abbrev pub item : Text → QValue → Text
item name q = name ++ (codes ";q=" ++ fmt q)

pub item-Avoids :
    (name : Text) (q : QValue) → Avoids (is b',') name → Avoids (is b',') (item name q)
item-Avoids name q h =
    All-append (λ c. is b',' c ≡ false) name (codes ";q=" ++ fmt q) h
      (refl, (refl, (refl, IsPlain-Avoids (fmt q) (fmt-plain q))))

-- The names that the encoder writes, with the weight that each sets.
pub record IsName (name : Text) (s : Slot) : Type 0 where
  pub slot : slot_of (trim name) ≡ s
  pub known : s ≢ unknown
  pub whole : Avoids (is b';') name
  pub single : Avoids (is b',') name
  pub written : is_empty name ≡ false

take_slot-eq :
    (s : Slot) (q : QValue) (r : Option Text) (a : AcceptEncoding)
    → s ≢ unknown
    → weight r ≡ some q
    → take_slot s r a ≡ some (assign s q a)
take_slot-eq br_slot q r a h e = rw e
take_slot-eq deflate_slot q r a h e = rw e
take_slot-eq zstd_slot q r a h e = rw e
take_slot-eq gzip_slot q r a h e = rw e
take_slot-eq wild q r a h e = rw e
take_slot-eq unknown q r a h e = absurd (h refl)

pub decode_item :
    (name : Text) (s : Slot) (q : QValue) (a : AcceptEncoding)
    → IsName name s
    → q ≤ 1000
    → decode_one (item name q) a ≡ some (assign s q a)
unfolding decode_one
decode_item name s q a n h =
    let cut = splitn2_at b';' name (codes "q=" ++ fmt q) n.whole in
    rw (cut, n.slot) (take_slot-eq s q (some (codes "q=" ++ fmt q)) a n.known (weight-eq q h))

pub gzip-IsName : IsName (codes "gzip") gzip_slot
unfolding slot_of eq_ignore_ascii_case trim is_whitespace
gzip-IsName = record {
  slot = refl;
  known = λ e. cc;
  whole = ground arith;
  single = ground arith;
  written = refl;
}

pub br-IsName : IsName (codes "br") br_slot
unfolding slot_of eq_ignore_ascii_case trim is_whitespace
br-IsName = record {
  slot = refl;
  known = λ e. cc;
  whole = ground arith;
  single = ground arith;
  written = refl;
}

pub deflate-IsName : IsName (codes "deflate") deflate_slot
unfolding slot_of eq_ignore_ascii_case trim is_whitespace
deflate-IsName = record {
  slot = refl;
  known = λ e. cc;
  whole = ground arith;
  single = ground arith;
  written = refl;
}

pub zstd-IsName : IsName (codes "zstd") zstd_slot
unfolding slot_of eq_ignore_ascii_case trim is_whitespace
zstd-IsName = record {
  slot = refl;
  known = λ e. cc;
  whole = ground arith;
  single = ground arith;
  written = refl;
}

pub star-IsName : IsName (codes "*") wild
unfolding slot_of eq_ignore_ascii_case trim is_whitespace text_eq
star-IsName = record {
  slot = refl;
  known = λ e. cc;
  whole = ground arith;
  single = ground arith;
  written = refl;
}
