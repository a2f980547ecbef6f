-- ===== src/Timing/Roundtrip.antt =====
-- headers/server_timing.rs: the metrics that come back from a header.
use mathlib.Core.List.{append-nil}
use ftl.Prelude.{
  ℕ, ◌≡◌, ◌⊎◌, refl, false, Option, none, some, List, [], ◌∷◌, ◌++◌, map, ok, All, All-append,
  arith, inl, inr,
}
use ftl.Http.{Text}
use ftl.Strings.{split, is, trim}
use ftl.Strings.Pieces.{Avoids}
use ftl.Timing.{
  ServerTiming, default, read_entries, read_timings, write_timing, write_rest, written, encode,
  decode, list_values,
}
use ftl.Timing.Pieces.{
  tails, split-tails, tails-Avoids, desc_piece, dur_piece, one, pieces, write_timing_lem,
  desc_piece-Avoids, dur_piece-Avoids, read_name, read_desc, read_dur, IsQuotable, InRange,
  IsTiming, whole_micros, rounded,
}

read_pieces :
    (name : Text) (d : Option Text) (u : Option ℕ)
    → trim name ≡ name
    → Avoids (is b'=') name
    → IsQuotable d
    → InRange u
    → read_entries default (name ∷ one desc_piece d ++ one dur_piece u)
      ≡ ok (record { name = name; description = d; duration = whole_micros u })
unfolding read_entries default one
read_pieces name none none h k q r = rw (read_name name h k)
read_pieces name none (some u) h k q r =
    rw (read_name name h k, read_dur (record default { name = name }) u r)
read_pieces name (some d) none h k (_, _, q) r =
    rw (read_name name h k, read_desc (record default { name = name }) d q)
read_pieces name (some d) (some u) h k (_, _, q) r =
    let t = record default { name = name } in
    rw (read_name name h k, read_desc t d q, read_dur (record t { description = some d }) u r)

quotable_commas : (d : Option Text) → IsQuotable d → All (Avoids (is b',')) (one desc_piece d)
unfolding one
quotable_commas none q = tt
quotable_commas (some d) (c, _, _) =
    (desc_piece-Avoids (is b',') d (refl, (refl, (refl, (refl, (refl, (refl, tt)))))) refl c, tt)

quotable_semicolons : (d : Option Text) → IsQuotable d → All (Avoids (is b';')) (one desc_piece d)
unfolding one
quotable_semicolons none q = tt
quotable_semicolons (some d) (_, c, _) =
    (desc_piece-Avoids (is b';') d (refl, (refl, (refl, (refl, (refl, (refl, tt)))))) refl c, tt)

durations-Avoids :
    (d : ℕ) (u : Option ℕ) → (d ≡ b',') ⊎ (d ≡ b';') → All (Avoids (is d)) (one dur_piece u)
unfolding one
durations-Avoids d none h = tt
durations-Avoids d (some u) h = (
  dur_piece-Avoids (is d) u (ground arith, (ground arith, (ground arith, (ground arith, tt))))
      (λ c k. ground arith) (ground arith),
  tt,
)

-- A metric's text holds no comma, and is cut at its semicolons into its pieces.
write_timing-Avoids : (t : ServerTiming) → IsTiming t → Avoids (is b',') (write_timing t)
write_timing-Avoids t h = rw (write_timing_lem t) (
    All-append (λ c. is b',' c ≡ false) t.name (tails b';' (pieces t)) h.one_item
      (tails-Avoids (is b',') b';' (pieces t) refl (
        unfold pieces in
        All-append (Avoids (is b',')) (one desc_piece t.description) (one dur_piece t.duration)
          (quotable_commas t.description h.quotable)
          (durations-Avoids b',' t.duration (inl refl)))))

split_timing :
    (t : ServerTiming) → IsTiming t → split (is b';') (write_timing t) ≡ t.name ∷ pieces t
split_timing t h = rw (write_timing_lem t) (
    split-tails b';' t.name (pieces t) h.one_entry (
      unfold pieces in
      All-append (Avoids (is b';')) (one desc_piece t.description) (one dur_piece t.duration)
        (quotable_semicolons t.description h.quotable)
        (durations-Avoids b';' t.duration (inr refl))))

read_timing :
    (t : ServerTiming)
    → IsTiming t
    → read_entries default (split (is b';') (write_timing t)) ≡ ok (rounded t)
read_timing t h = rw (split_timing t h) (
    unfold pieces in
    read_pieces t.name t.description t.duration h.trimmed h.no_key h.quotable h.in_range)

read_timings_lem :
    (ts : List ServerTiming)
    → All IsTiming ts
    → read_timings (map write_timing ts) ≡ ok (map rounded ts)
unfolding read_timings
read_timings_lem [] h = refl
read_timings_lem (t ∷ ts) (h, hs) = rw (read_timing t h, read_timings_lem ts hs)

write_rest_lem : (ts : List ServerTiming) → write_rest ts ≡ tails b',' (map write_timing ts)
unfolding write_rest tails
write_rest_lem [] = refl
write_rest_lem (t ∷ ts) = rw (write_rest_lem ts)

written-Avoids :
    (ts : List ServerTiming) → All IsTiming ts → All (Avoids (is b',')) (map write_timing ts)
written-Avoids [] h = tt
written-Avoids (t ∷ ts) (h, hs) = (write_timing-Avoids t h, written-Avoids ts hs)

split_written :
    (t : ServerTiming) (ts : List ServerTiming)
    → All IsTiming (t ∷ ts)
    → split (is b',') (written (t ∷ ts)) ≡ map write_timing (t ∷ ts)
unfolding written
split_written t ts (h, hs) = rw (write_rest_lem ts) (
    split-tails b',' (write_timing t) (map write_timing ts) (write_timing-Avoids t h)
      (written-Avoids ts hs))

-- What `ServerTimings` writes is read back, with each duration cut to whole microseconds, if the
-- written text becomes a header's value that gives the same text, each name has no comma, semicolon
-- or equals sign and no white space at its ends, each description has no comma or semicolon and no
-- quotation mark at its ends, and each duration in microseconds is below 2^64.
pub timings_roundtrip {ℓ} :
    {Value : Type ℓ} (try_from : Text → Option Value) (to_str : Value → Option Text) (v : Value)
    (ts : List ServerTiming)
    → All IsTiming ts
    → try_from (written ts) ≡ some v
    → to_str v ≡ some (written ts)
    → decode to_str (encode try_from ts) ≡ ok (map rounded ts)
unfolding decode encode list_values read_timings
timings_roundtrip try_from to_str v [] h e r = refl
timings_roundtrip try_from to_str v (t ∷ ts) h e r =
    rw (e, r, append-nil, split_written t ts h) (read_timings_lem (t ∷ ts) h)
