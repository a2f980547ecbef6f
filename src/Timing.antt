-- ===== src/Timing.antt =====
-- headers/server_timing.rs: the `Server-Timing` header; layers/resp_timing.rs. A `Duration` is its
-- nanoseconds. The conversions of a header's value to and from a text are the `http` crate's.
use ftl.Prelude.{
  ℕ, ◌+◌, ◌-◌, ◌*◌, ◌/◌, ◌%◌, ◌^◌, Option, none, some, List, [], ◌∷◌, ◌++◌, map, ◌==◌,
  if◌then◌else◌, Result, ok, err,
}
use ftl.Http.{Text}
use ftl.Strings.{codes, split, is, splitn2, text_eq, trim, is_empty, trim_matches}
use ftl.Decimal.{print_u128, parse_u64}
pub mod Read
pub mod Pieces
pub mod Roundtrip
pub mod Fractions

pub record ServerTiming : Type 0 where
  pub name : Text
  pub description : Option Text
  pub duration : Option ℕ

-- `ServerTiming::default()`
unfoldable pub default : ServerTiming
default = record { name = []; description = none; duration = none }

-- `{:03}` of a number below 1000.
unfoldable pub pad3 : ℕ → Text
pad3 n = (b'0' + n / 100) ∷ (b'0' + n / 10 % 10) ∷ (b'0' + n % 10) ∷ []

unfoldable pub write_description : Option Text → Text
write_description none = []
write_description (some d) = b';' ∷ codes "desc=" ++ (b'"' ∷ d ++ b'"' ∷ [])

unfoldable pub write_duration : Option ℕ → Text
unfolding pad3
write_duration none = []
write_duration (some ns) =
    let us = ns / 1000 in b';' ∷ codes "dur=" ++ (print_u128 (us / 1000) ++ b'.' ∷ pad3 (us % 1000))

unfoldable pub write_timing : ServerTiming → Text
unfolding write_description write_duration
write_timing t = t.name ++ (write_description t.description ++ write_duration t.duration)

-- Each metric after the first behind a comma.
unfoldable pub write_rest : List ServerTiming → Text
write_rest [] = []
write_rest (t ∷ ts) = b',' ∷ write_timing t ++ write_rest ts

unfoldable pub written : List ServerTiming → Text
unfolding write_rest
written [] = []
written (t ∷ ts) = write_timing t ++ write_rest ts

of_value {ℓ} : {A : Type ℓ} → Option A → List A
of_value none = []
of_value (some v) = v ∷ []

unfoldable pub encode {ℓ} :
    {Value : Type ℓ} → (Text → Option Value) → List ServerTiming → List Value
unfolding written of_value
encode try_from [] = []
encode try_from (t ∷ ts) = of_value (try_from (written (t ∷ ts)))

-- `micros[..max_len]`
unfoldable pub take3 : Text → Text
take3 (a ∷ b ∷ c ∷ s) = a ∷ b ∷ c ∷ []
take3 s = s

-- `milliseconds * 1_000 + microseconds` on `u64`, with the wrap-around of a build without checks.
from_parts : Option ℕ → Option ℕ → Option ℕ
from_parts (some ms) (some us) = some ((ms * 1000 + us) % 2 ^ 64 * 1000)
from_parts (some ms) none = none
from_parts none us = none

of_millis : Option ℕ → Option ℕ
of_millis none = none
of_millis (some ms) = some (ms * 1000000)

parse_parts : Text × Option Text → Option ℕ
unfolding take3 of_millis from_parts
parse_parts (millis, none) = of_millis (parse_u64 millis)
parse_parts (millis, some micros) = from_parts (parse_u64 millis) (parse_u64 (take3 micros))

unfoldable pub parse_duration : Text → Option ℕ
unfolding parse_parts
parse_duration value = parse_parts (splitn2 b'.' value)

-- `headers::Error::invalid()`
pub data Invalid : Type 0 where
  invalid : Invalid

set_duration : ServerTiming → Option ℕ → Result ServerTiming Invalid
set_duration t none = err invalid
set_duration t (some d) = ok (record t { duration = some d })

read_pair : ServerTiming → Text → Text × Option Text → Result ServerTiming Invalid
unfolding trim_matches set_duration
read_pair t entry (key, none) = ok (record t { name = entry })
read_pair t entry (key, some value) =
    if text_eq key (codes "desc")
    then ok (record t { description = some (trim_matches b'"' value) })
    else if text_eq key (codes "dur")
    then set_duration t (parse_duration value)
    else ok t

-- One turn of the inner loop.
unfoldable pub read_entry : ServerTiming → Text → Result ServerTiming Invalid
unfolding read_pair
read_entry t raw =
    let entry = trim raw in if is_empty entry then ok t else read_pair t entry (splitn2 b'=' entry)

infixl 5 ◌>>=◌
abbrev pub ◌>>=◌ {ℓ κ} :
    {A : Type ℓ} {B : Type κ} → Result A Invalid → (A → Result B Invalid) → Result B Invalid
ok a >>= k = k a
err e >>= k = err e

unfoldable pub read_entries : ServerTiming → List Text → Result ServerTiming Invalid
unfolding read_entry
read_entries t [] = ok t
read_entries t (e ∷ es) = read_entry t e >>= λ u. read_entries u es

unfoldable pub read_timings : List Text → Result (List ServerTiming) Invalid
unfolding read_entries default
read_timings [] = ok []
read_timings (v ∷ vs) =
    read_entries default (split (is b';') v) >>= λ t. read_timings vs >>= λ ts. ok (t ∷ ts)

-- `filter_map(to_str)` and `flat_map(split(','))`
unfoldable pub list_values {ℓ} : {Value : Type ℓ} → (Value → Option Text) → List Value → List Text
list_values to_str [] = []
list_values to_str (v ∷ vs) =
    elim (to_str v) [ none ↦ [] | some s ↦ split (is b',') s ] ++ list_values to_str vs

unfoldable pub decode {ℓ} :
    {Value : Type ℓ} → (Value → Option Text) → List Value → Result (List ServerTiming) Invalid
unfolding read_timings list_values
decode to_str vs = read_timings (list_values to_str vs)

-- `typed_insert` puts the values in place of those that are there, if there are any.
unfoldable pub insert {ℓ} : {Value : Type ℓ} → List Value → List Value → List Value
insert [] old = old
insert (v ∷ vs) old = v ∷ vs

-- `RespTimingLayer::call`, with the response as the values of its `Server-Timing` header.
unfoldable pub resp_timing {ℓ κ} :
    {Value : Type ℓ} {E : Type κ}
    → (Text → Option Value)
    → ℕ
    → ℕ
    → Result (List Value) E
    → Result (List Value) E
unfolding insert encode
resp_timing try_from start now (err e) = err e
resp_timing try_from start now (ok old) = ok (
    insert
      (encode try_from
        (record { name = codes "resp"; description = none; duration = some (now - start) } ∷ []))
      old)
