-- ===== src/Timing/Pieces.antt =====
-- headers/server_timing.rs: the pieces of a metric's text, and how `decode` reads each.
use mathlib.Core.List.{append-nil}
use ftl.Prelude.{
  ℕ, ◌*◌, ◌/◌, ◌%◌, ◌^◌, ◌<◌, ◌≡◌, refl, ap, ◌∙◌, Bool, false, Option, none, some, List, [], ◌∷◌,
  ◌++◌, ok, All, All-append, arith,
}
use ftl.Http.{Text}
use ftl.Strings.{trim_matches, codes, split, is, text_eq, trim, trim_start, is_whitespace}
use ftl.Strings.Pieces.{
  Avoids, split-append, split_of_Avoids, splitn2_at, splitn2_of_Avoids, trim_end_snoc,
  trim_of_IsUnspaced,
}
use ftl.Decimal.{IsDigit}
use ftl.Timing.{ServerTiming, default, read_entry, write_description, write_duration, write_timing}
use ftl.Timing.Read.{
  decimal, parse_duration_written, decimal-Avoids, digit-IsUnspaced, trim_matches_quoted,
}

-- Texts, each behind a separator.
unfoldable pub tails : ℕ → List Text → Text
tails d [] = []
tails d (x ∷ xs) = d ∷ x ++ tails d xs

pub split-tails :
    (d : ℕ) (x : Text) (xs : List Text)
    → Avoids (is d) x
    → All (Avoids (is d)) xs
    → split (is d) (x ++ tails d xs) ≡ x ∷ xs
unfolding tails
split-tails d x [] h k = rw append-nil (split_of_Avoids (is d) x h)
split-tails d x (y ∷ ys) h (k, ks) =
    split-append (is d) x (y ++ tails d ys) d h (ground arith)
    ∙ ap (λ l. x ∷ l) (split-tails d y ys k ks)

pub tails-Avoids :
    (p : ℕ → Bool) (d : ℕ) (xs : List Text)
    → p d ≡ false
    → All (Avoids p) xs
    → Avoids p (tails d xs)
unfolding tails
tails-Avoids p d [] h k = tt
tails-Avoids p d (x ∷ xs) h (k, ks) =
    (h, All-append (λ c. p c ≡ false) x (tails d xs) k (tails-Avoids p d xs h ks))

unfoldable pub desc_piece : Text → Text
desc_piece d = codes "desc=" ++ (b'"' ∷ d ++ b'"' ∷ [])

unfoldable pub dur_piece : ℕ → Text
dur_piece ns = codes "dur=" ++ decimal (ns / 1000 / 1000) (ns / 1000 % 1000)

unfoldable pub one {ℓ} : {A : Type ℓ} → (A → Text) → Option A → List Text
one f none = []
one f (some a) = f a ∷ []

unfoldable pub pieces : ServerTiming → List Text
pieces t = one desc_piece t.description ++ one dur_piece t.duration

-- What a description keeps through quotation and the split.
abbrev pub IsQuotable : Option Text → Type 0
IsQuotable none = Unit
IsQuotable (some d) = Avoids (is b',') d × Avoids (is b';') d × (trim_matches b'"' d ≡ d)

abbrev pub InRange : Option ℕ → Type 0
InRange none = Unit
InRange (some ns) = ns / 1000 < 2 ^ 64

pub record IsTiming (t : ServerTiming) : Type 0 where
  pub trimmed : trim t.name ≡ t.name
  pub one_item : Avoids (is b',') t.name
  pub one_entry : Avoids (is b';') t.name
  pub no_key : Avoids (is b'=') t.name
  pub quotable : IsQuotable t.description
  pub in_range : InRange t.duration

-- A whole number of microseconds.
abbrev pub whole_micros : Option ℕ → Option ℕ
whole_micros none = none
whole_micros (some ns) = some (ns / 1000 * 1000)

abbrev pub rounded : ServerTiming → ServerTiming
rounded t = record t { duration = whole_micros t.duration }

pub write_timing_lem : (t : ServerTiming) → write_timing t ≡ t.name ++ tails b';' (pieces t)
unfolding write_timing pieces tails one desc_piece dur_piece
write_timing_lem t = ap (λ s. t.name ++ s) (entries t.description t.duration)
  where
    entries :
        (d : Option Text) (u : Option ℕ)
        → write_description d ++ write_duration u ≡ tails b';' (one desc_piece d ++ one dur_piece u)
    entries none none = refl
    entries none (some u) = rw append-nil
    entries (some d) none = rw append-nil
    entries (some d) (some u) = rw append-nil

pub desc_piece-Avoids :
    (p : ℕ → Bool) (d : Text)
    → Avoids p (codes "desc=\"")
    → p b'"' ≡ false
    → Avoids p d
    → Avoids p (desc_piece d)
unfolding desc_piece
desc_piece-Avoids p d h q k =
    All-append (λ c. p c ≡ false) (codes "desc=\"") (d ++ b'"' ∷ []) h
      (All-append (λ c. p c ≡ false) d (b'"' ∷ []) k (q, tt))

pub dur_piece-Avoids :
    (p : ℕ → Bool) (ns : ℕ)
    → Avoids p (codes "dur=")
    → ((c : ℕ) → IsDigit c → p c ≡ false)
    → p b'.' ≡ false
    → Avoids p (dur_piece ns)
unfolding dur_piece
dur_piece-Avoids p ns h d e =
    All-append (λ c. p c ≡ false) (codes "dur=") (decimal (ns / 1000 / 1000) (ns / 1000 % 1000)) h
      (decimal-Avoids p (ns / 1000 / 1000) (ns / 1000 % 1000) (omega arith) d e)

pub read_name :
    (name : Text)
    → trim name ≡ name
    → Avoids (is b'=') name
    → read_entry default name ≡ ok (record default { name = name })
unfolding read_entry default
read_name [] h k = rw h
read_name (c ∷ s) h k = rw (h, splitn2_of_Avoids b'=' (c ∷ s) k)

trim_desc : (d : Text) → trim (desc_piece d) ≡ desc_piece d
unfolding trim trim_start is_whitespace desc_piece
trim_desc d = ap trim_start (trim_end_snoc (codes "desc=\"" ++ d) b'"' refl)

pub read_desc :
    (t : ServerTiming) (d : Text)
    → trim_matches b'"' d ≡ d
    → read_entry t (desc_piece d) ≡ ok (record t { description = some d })
unfolding read_entry text_eq
read_desc t d h = rw (trim_desc d) (
    unfold desc_piece in
    rw (splitn2_at b'=' (codes "desc") (b'"' ∷ d ++ b'"' ∷ []) (refl, (refl, (refl, (refl, tt)))))
      (ap (λ s. ok (record t { description = some s })) (trim_matches_quoted b'"' d ∙ h)))

pub read_dur :
    (t : ServerTiming) (ns : ℕ)
    → ns / 1000 < 2 ^ 64
    → read_entry t (dur_piece ns) ≡ ok (record t { duration = some (ns / 1000 * 1000) })
unfolding read_entry text_eq
read_dur t ns h =
    rw
      (trim_of_IsUnspaced (dur_piece ns) (
        dur_piece-Avoids is_whitespace ns
          (unfold is_whitespace in (refl, (refl, (refl, (refl, tt))))) digit-IsUnspaced
          (unfold is_whitespace in refl)))
      (unfold dur_piece in
        rw
          (
            splitn2_at b'=' (codes "dur") (decimal (ns / 1000 / 1000) (ns / 1000 % 1000))
                (refl, (refl, (refl, tt))),
            parse_duration_written (ns / 1000 / 1000) (ns / 1000 % 1000) (omega arith)
                (omega arith),
          )
          (ap (λ (n : ℕ). ok (record t { duration = some (n * 1000) })) (omega arith)))
