-- ===== src/Bodies/Limits.antt =====
-- `Body::limit` of body/mod.rs, with the polls of the bodies that it makes.
use ftl.Prelude.{
  List, [], ◌∷◌, ℕ, zero, suc, ◌≡◌, refl, min, List, [], ◌∷◌, Result, ok, arith, ◌⊎◌, inl, inr, ◌≤◌,
  ◌<◌, sym, ap,
}
use ftl.BodyLimit.{BodyError, Poll, pending, finished, failed, ready, trailers, data_frame}
use ftl.BodyLimit.Bounds.{bytes_of, poll_frame_fits, poll_frame_exceeds}
use ftl.BodyLimit as BodyLimit
use ftl.Bodies.{
  HttpBody, Body, empty, limited, incoming, full, channel, stream, dyn, deferred, arbitrary, limit,
  poll_frame, polls, limited_poll,
}

min_assoc : (a b c : ℕ) → min (min a b) c ≡ min a (min b c)
min_assoc a b c = ground arith

module _ {ℓ} {S V : Type ℓ} where
  of_ok :
      (n : ℕ) (b c : Body S V) (r x : Result (Body S V) BodyError)
      → limit n b ≡ r
      → x ≡ ok b
      → x ≡ ok c
      → limit n c ≡ r
  of_ok n b c r x e g h = let k : c ≡ b = cc in rw k e

  -- A limit set on a body that has one already is that of both at once.
  pub limit-limit : (m n : ℕ) (b c : Body S V) → limit m b ≡ ok c → limit n c ≡ limit (min m n) b
  unfolding limit
  limit-limit m n empty c h = of_ok n empty c (ok empty) (ok _) refl refl h
  limit-limit m n (limited r b) c h =
      of_ok n (limited (min r m) b) c (ok (limited (min r (min m n)) b)) (ok _)
        (rw (min_assoc r m n) refl) refl h
  limit-limit m n (incoming s) c h =
      of_ok n (limited m (incoming s)) c (ok (limited (min m n) (incoming s))) (ok _) refl refl h
  limit-limit m n (full s) c h =
      of_ok n (limited m (full s)) c (ok (limited (min m n) (full s))) (ok _) refl refl h
  limit-limit m n (channel s) c h =
      of_ok n (limited m (channel s)) c (ok (limited (min m n) (channel s))) (ok _) refl refl h
  limit-limit m n (stream s) c h =
      of_ok n (limited m (stream s)) c (ok (limited (min m n) (stream s))) (ok _) refl refl h
  limit-limit m n (dyn s) c h =
      of_ok n (limited m (dyn s)) c (ok (limited (min m n) (dyn s))) (ok _) refl refl h
  limit-limit m n deferred c h = absurd cc
  limit-limit m n (arbitrary t v) c h = absurd cc

  -- The polls of a limited body are those of the body inside, limited one after the other.
  pub polls-limited :
      (h : HttpBody S) (k n : ℕ) (b : Body S V)
      → polls h k (limited n b) ≡ BodyLimit.drain n (polls h k b)
  unfolding polls poll_frame limited_poll BodyLimit.drain
  polls-limited h zero n b = refl
  polls-limited h (suc k) n b =
      let p = poll_frame h b in rw (polls-limited h k (BodyLimit.poll_frame n p.1).0 p.0) refl

le_cases : (a b : ℕ) → (a ≤ b) ⊎ (b < a)
le_cases a b = ground arith

-- Two limits, one inside the other, on what one poll gives: what remains of both, and the result.
twice :
    (m n : ℕ) (p : Poll)
    → let q = BodyLimit.poll_frame m p in
      let r = BodyLimit.poll_frame n q.1 in BodyLimit.poll_frame (min m n) p ≡ (min q.0 r.0, r.1)
unfolding BodyLimit.poll_frame
twice m n p = elim (le_cases (bytes_of p) m) [
  | inr a ↦
      rw (poll_frame_exceeds m p a, poll_frame_exceeds (min m n) p (ground arith)) (ground arith)
  | inl a ↦ elim (le_cases (bytes_of p) n) [
    | inl b ↦
        rw
          (poll_frame_fits m p a, poll_frame_fits n p b, poll_frame_fits (min m n) p (ground arith))
          (ground arith)
    | inr b ↦
        rw
          (
            poll_frame_fits m p a,
            poll_frame_exceeds n p b,
            poll_frame_exceeds (min m n) p (ground arith),
          )
          (ground arith)
  ]
]

drain-drain :
    (m n : ℕ) (ps : List Poll)
    → BodyLimit.drain n (BodyLimit.drain m ps) ≡ BodyLimit.drain (min m n) ps
unfolding BodyLimit.drain
drain-drain m n [] = refl
drain-drain m n (p ∷ ps) =
    let q = BodyLimit.poll_frame m p in
    rw (twice m n p, drain-drain q.0 (BodyLimit.poll_frame n q.1).0 ps) refl

ok_unique {ℓ} : {A : Type ℓ} (x : Result A BodyError) (a b : A) → x ≡ ok a → x ≡ ok b → b ≡ a
ok_unique x a b e h = cc

module _ {ℓ} {S V : Type ℓ} where
  drain-finished :
      (h : HttpBody S) (k n : ℕ) (b : Body S V)
      → b ≡ empty
      → polls h k b ≡ BodyLimit.drain n (polls h k b)
  unfolding polls poll_frame BodyLimit.drain BodyLimit.poll_frame
  drain-finished h zero n b e = refl
  drain-finished h (suc k) n b e = rw e (ap (λ l. finished ∷ l) (drain-finished h k n empty refl))

  -- Whenever `limit` accepts a body, limited already or not, any number of polls of the body that
  -- it makes give what the same number of polls of the body itself give, cut by the new limit as a
  -- list.
  pub limit-polls :
      (h : HttpBody S) (k n : ℕ) (b c : Body S V)
      → limit n b ≡ ok c
      → polls h k c ≡ BodyLimit.drain n (polls h k b)
  unfolding limit
  limit-polls h k n empty c e =
      rw (ok_unique (ok _) empty c refl e) (drain-finished h k n empty refl)
  limit-polls h k n (limited r b) c e =
      rw
        (
          ok_unique (ok _) (limited (min r n) b) c refl e,
          polls-limited h k (min r n) b,
          polls-limited h k r b,
        )
        (sym (drain-drain r n (polls h k b)))
  limit-polls h k n (incoming s) c e =
      rw (ok_unique (ok _) (limited n (incoming s)) c refl e) (polls-limited h k n (incoming s))
  limit-polls h k n (full s) c e =
      rw (ok_unique (ok _) (limited n (full s)) c refl e) (polls-limited h k n (full s))
  limit-polls h k n (channel s) c e =
      rw (ok_unique (ok _) (limited n (channel s)) c refl e) (polls-limited h k n (channel s))
  limit-polls h k n (stream s) c e =
      rw (ok_unique (ok _) (limited n (stream s)) c refl e) (polls-limited h k n (stream s))
  limit-polls h k n (dyn s) c e =
      rw (ok_unique (ok _) (limited n (dyn s)) c refl e) (polls-limited h k n (dyn s))
  limit-polls h k n deferred c e = absurd cc
  limit-polls h k n (arbitrary t v) c e = absurd cc
