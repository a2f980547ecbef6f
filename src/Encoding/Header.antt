-- ===== src/Encoding/Header.antt =====
-- headers/accept_encoding.rs: the `accept-encoding` header, `encode` against `decode`.
use ftl.Prelude.{
  ◌≤◌, ◌≡◌, ◌∙◌, ap, refl, false, some, List, [], ◌∷◌, ◌++◌, ltb, if◌then◌else◌, ◌>>=◌,
  Option-cases, Bool-cases, inl, inr, arith,
}
use mathlib.Core.List.{append-nil}
use ftl.Http.{Text}
use ftl.Strings.{codes, split, is, is_empty}
use ftl.Strings.Pieces.{Avoids, split_snoc, split_of_Avoids}
use ftl.QValue.{QValue}
use ftl.Encoding.{
  AcceptEncoding, default, Slot, br_slot, deflate_slot, zstd_slot, gzip_slot, assign, decode_one,
  decode_values, list_values, decode, push_weight, encode,
}
use ftl.Encoding.Items.{
  IsName, item, item-Avoids, decode_item, gzip-IsName, br-IsName, deflate-IsName, zstd-IsName,
}

decode_values-append :
    (xs ys : List Text) (a : AcceptEncoding)
    → decode_values (xs ++ ys) a ≡ (decode_values xs a >>= decode_values ys)
unfolding decode_values
decode_values-append [] ys a = refl
decode_values-append (x ∷ xs) ys a = elim (Option-cases (decode_one x a)) [
  | inl e ↦ rw e
  | inr (b, e) ↦ rw e (decode_values-append xs ys b)
]

-- What the text written so far is read as.
abbrev Reads : Text → AcceptEncoding → Type 0
Reads [] a = default ≡ a
Reads (c ∷ s) a = decode_values (split (is b',') (c ∷ s)) default ≡ some a

Reads-first :
    (t : Text) (a : AcceptEncoding)
    → is_empty t ≡ false
    → Avoids (is b',') t
    → decode_one t default ≡ some a
    → Reads t a
unfolding decode_values
Reads-first [] a w h e = cc
Reads-first (c ∷ t) a w h e = rw (split_of_Avoids (is b',') (c ∷ t) h, decode_values, e)

Reads-next :
    (s t : Text) (a b : AcceptEncoding)
    → is_empty s ≡ false
    → Avoids (is b',') t
    → Reads s a
    → decode_one t a ≡ some b
    → Reads (s ++ b',' ∷ t) b
unfolding decode_values
Reads-next [] t a b w h r e = cc
Reads-next (c ∷ s) t a b w h r e = rw (split_snoc (is b',') (c ∷ s) t b',' refl h) (
    decode_values-append (split (is b',') (c ∷ s)) (t ∷ []) default
    ∙ ap (λ o. o >>= decode_values (t ∷ [])) r
    ∙ rw e)

item-written : (name : Text) (q : QValue) → is_empty name ≡ false → is_empty (item name q) ≡ false
item-written [] q h = cc
item-written (c ∷ name) q h = refl

skip-Reads :
    (s : Text) (slot : Slot) (q : QValue) (a : AcceptEncoding)
    → ltb 0 q ≡ false
    → assign slot 0 a ≡ a
    → Reads s a
    → Reads s (assign slot q a)
skip-Reads s slot q a h z r = let zero_weight : q ≡ 0 = ground arith in rw (zero_weight, z) r

push_weight-Reads :
    (name s : Text) (slot : Slot) (q : QValue) (a : AcceptEncoding)
    → IsName name slot
    → q ≤ 1000
    → assign slot 0 a ≡ a
    → Reads s a
    → Reads (push_weight s q name) (assign slot q a)
unfolding push_weight
push_weight-Reads name [] slot q a n h z r = elim (Bool-cases (ltb 0 q)) [
  | inl e ↦ rw e (
      Reads-first (item name q) (assign slot q a) (item-written name q n.written)
        (item-Avoids name q n.single) (rw r (decode_item name slot q a n h)))
  | inr e ↦ rw e (skip-Reads [] slot q a e z r)
]
push_weight-Reads name (c ∷ s) slot q a n h z r = elim (Bool-cases (ltb 0 q)) [
  | inl e ↦ rw e (
      Reads-next (c ∷ s) (item name q) a (assign slot q a) refl (item-Avoids name q n.single) r
        (decode_item name slot q a n h))
  | inr e ↦ rw e (skip-Reads (c ∷ s) slot q a e z r)
]

-- Every weight is in range.
abbrev pub IsAccept : AcceptEncoding → Type 0
IsAccept a = (a.gzip ≤ 1000) × (a.br ≤ 1000) × (a.deflate ≤ 1000) × (a.zstd ≤ 1000)

written-Reads :
    (a : AcceptEncoding)
    → IsAccept a
    → Reads
        (push_weight
          (push_weight
            (push_weight (push_weight [] a.gzip (codes "gzip")) a.br (codes "br"))
            a.deflate
            (codes "deflate"))
          a.zstd
          (codes "zstd"))
        a
unfolding assign default
written-Reads a (hg, hb, hd, hz) =
    let s0 = push_weight [] a.gzip (codes "gzip") in
    let s1 = push_weight s0 a.br (codes "br") in
    let s2 = push_weight s1 a.deflate (codes "deflate") in
    let a0 = assign gzip_slot a.gzip default in
    let a1 = assign br_slot a.br a0 in
    let a2 = assign deflate_slot a.deflate a1 in
    push_weight-Reads (codes "zstd") s2 zstd_slot a.zstd a2 zstd-IsName hz refl (
      push_weight-Reads (codes "deflate") s1 deflate_slot a.deflate a1 deflate-IsName hd refl (
        push_weight-Reads (codes "br") s0 br_slot a.br a0 br-IsName hb refl
          (push_weight-Reads (codes "gzip") [] gzip_slot a.gzip default gzip-IsName hg refl refl)))

decode_written :
    (s : Text) (a : AcceptEncoding)
    → Reads s a
    → decode some (if is_empty s then [] else s ∷ []) ≡ some a
unfolding decode list_values decode_values
decode_written [] a r = ap some r
decode_written (c ∷ s) a r = rw append-nil r

-- An `Accept-Encoding` header whose weights are at most 1000 thousandths is read back from what
-- `encode` writes, exactly, when the header's text is readable.
pub decode-encode : (a : AcceptEncoding) → IsAccept a → decode some (encode a) ≡ some a
unfolding encode
decode-encode a h = decode_written _ a (written-Reads a h)
