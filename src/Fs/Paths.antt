-- ===== src/Fs/Paths.antt =====
-- fs.rs: `sanitize_path`.
use ftl.Prelude.{
  ◌≡◌, ◌∙◌, ap, sym, inl, inr, refl, Bool, false, Option, some, List, [], ◌∷◌, ◌++◌, ok, All,
  Bool-cases, Option-cases, arith,
}
use mathlib.Core.List.{append-nil, append_assoc}
use ftl.Http.{Text}
use ftl.Strings.{codes, starts_with, split, is}
use ftl.Strings.Pieces.{Avoids, split-Avoids}
use ftl.EntityTag.{ends_with}
use ftl.Fs.{push, contains, is_rejected, push_segments, sanitize_path}

-- A segment that names something in the directory that it is joined to.
pub record IsSafe (seg : Text) : Type 0 where
  pub inside : starts_with seg (codes "..") ≡ false
  pub plain : contains 0x5c seg ≡ false
  pub single : Avoids (is b'/') seg

-- The segments pushed onto the base one after the other.
pub push_all : Text → List Text → Text
push_all buf [] = buf
push_all buf (seg ∷ segs) = push_all (push buf seg) segs

not_absolute : (seg : Text) → Avoids (is b'/') seg → starts_with seg (codes "/") ≡ false
unfolding starts_with
not_absolute [] h = refl
not_absolute (c ∷ seg) (h, _) = ground arith

-- A relative segment only lengthens the path.
pub push-append :
    (buf seg : Text) → Avoids (is b'/') seg → (rest : Text) × (push buf seg ≡ buf ++ rest)
unfolding push
push-append [] seg h = (seg, rw (not_absolute seg h))
push-append (c ∷ buf) seg h = elim (Bool-cases (ends_with b'/' (c ∷ buf))) [
  | inl e ↦ (seg, rw (not_absolute seg h, e))
  | inr e ↦ (b'/' ∷ seg, rw (not_absolute seg h, e))
]

push_all-append :
    (buf : Text) (segs : List Text)
    → All IsSafe segs
    → (rest : Text) × (push_all buf segs ≡ buf ++ rest)
unfolding push_all
push_all-append buf [] h = ([], sym (append-nil buf))
push_all-append buf (seg ∷ segs) (h, hs) =
    let (one, first) = push-append buf seg h.single in
    let (more, then_) = push_all-append (push buf seg) segs hs in
    (one ++ more, then_ ∙ ap (λ b. b ++ more) first ∙ append_assoc buf one more)

-- Only safe segments are pushed.
push_segments-IsSafe :
    (windows : Bool) (buf out : Text) (segs : List Text)
    → All (Avoids (is b'/')) segs
    → push_segments windows buf segs ≡ ok out
    → All IsSafe segs × (out ≡ push_all buf segs)
unfolding push_segments is_rejected push_all
push_segments-IsSafe windows buf out [] h e = ground arith
push_segments-IsSafe windows buf out (seg ∷ segs) (h, hs) e =
    elim (Bool-cases (is_rejected windows seg)) [
      | inl bad ↦ absurd (ground arith)
      | inr good ↦
          let ih = push_segments-IsSafe windows (push buf seg) out segs hs (ground arith) in
          ((record { inside = ground arith; plain = ground arith; single = h }, ih.0), ih.1)
    ]

-- Whenever `sanitize_path` accepts, the tail decodes, none of its segments begins with two dots or
-- holds a slash or a backslash, the result is the base with these segments pushed one after the
-- other, and the result begins with the base.
pub sanitize_path-IsSafe :
    (windows : Bool) (decode_utf8 : Text → Option Text) (base tail out : Text)
    → sanitize_path windows decode_utf8 base tail ≡ ok out
    → (p : Text) × (rest : Text) × (decode_utf8 tail ≡ some p)
      × All IsSafe (split (is b'/') p)
      × (out ≡ push_all base (split (is b'/') p))
      × (out ≡ base ++ rest)
unfolding sanitize_path
sanitize_path-IsSafe windows decode_utf8 base tail out e = elim (Option-cases (decode_utf8 tail)) [
  | inl bad ↦ absurd (ground arith)
  | inr (p, good) ↦
      let segs = split (is b'/') p in
      let (safe, same) =
        push_segments-IsSafe windows base out segs (split-Avoids (is b'/') p) (ground arith) in
      let (rest, below) = push_all-append base segs safe in
      (p, rest, good, safe, same, same ∙ below)
]
