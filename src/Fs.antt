-- ===== src/Fs.antt =====
-- fs.rs: the conditional headers, the byte range, the path under the base directory, and the reply.
-- The typed headers of the `headers` crate and percent decoding are parameters. A modification
-- time is its seconds and nanoseconds since the epoch; a status is its code.
use ftl.Prelude.{
  ℕ, ◌+◌, ◌-◌, Bool, true, false, not, ◌&&◌, Option, none, some, List, [], ◌∷◌, ◌++◌, Result, ok,
  err, leb, ltb, ◌==◌, if◌then◌else◌, ◌>>=◌, any, ◌||◌,
}
use ftl.Prelude.Words.{as_u64, u64_max}
use ftl.Http.{Text}
use ftl.Strings.{codes, starts_with, split, is, is_empty}
use ftl.EntityTag.{EntityTag, weak_eq, from_file, ends_with}
pub mod Conditions
pub mod Ranges
pub mod Overflows
pub mod Paths

-- `std::ops::Bound`
pub data Bound : Type 0 where
  unbounded : Bound
  included excluded : ℕ → Bound

unfoldable pub start_of : Bound → ℕ
start_of unbounded = 0
start_of (included s) = s
start_of (excluded s) = as_u64 (s + 1)

unfoldable pub end_of : ℕ → Bound → ℕ
end_of max_len unbounded = max_len
end_of max_len (included s) = if s == max_len then s else as_u64 (s + 1)
end_of max_len (excluded s) = s

-- Whether an addition of `bytes_range` passes `u64`: a build with overflow checks panics there, any
-- other wraps, as `start_of` and `end_of` do.
unfoldable pub start_overflows : Bound → Bool
start_overflows (excluded s) = s == u64_max
start_overflows start = false

unfoldable pub end_overflows : ℕ → Bound → Bool
end_overflows max_len (included s) = s == u64_max && not (s == max_len)
end_overflows max_len end = false

unfoldable pub overflows : Option (Bound × Bound) → ℕ → Bool
unfolding start_overflows end_overflows
overflows none max_len = false
overflows (some (start, end)) max_len = start_overflows start || end_overflows max_len end

-- `bytes_range`, at what `satisfiable_ranges(max_len).next()` gives; the error is `BadRange`.
unfoldable pub bytes_range : Option (Bound × Bound) → ℕ → Result (ℕ × ℕ) (Unit {0})
unfolding start_of end_of
bytes_range none max_len = ok (0, max_len)
bytes_range (some (s, e)) max_len =
    let start = start_of s in
    let end = end_of max_len e in
    if ltb start end && leb end max_len then ok (start, end) else err tt

-- `Conditionals`, with the types of the dates, of `If-Range` and of `Range`.
pub record Conditionals (D I R : Type 0) : Type 0 where
  pub if_modified_since : Option D
  pub if_unmodified_since : Option D
  pub if_range : Option I
  pub if_none_match : Option (List EntityTag)
  pub range : Option R

pub data Cond (R : Type 0) : Type 0 where
  no_body : ℕ → Cond R
  with_body : Option R → Cond R

abbrev pub not_modified : ℕ
not_modified = 304

abbrev pub precondition_failed : ℕ
precondition_failed = 412

-- An unknown modification time passes no test.
abbrev pub on_time : {T : Type 0} → (T → Bool) → Option T → Bool
on_time p none = false
on_time p (some t) = p t

-- `precondition_passes` and `is_modified` of a date, and `is_modified(None, _)` of `If-Range`.
module _ {D I R T : Type 0} (precondition_passes : D → T → Bool) (is_modified : D → T → Bool)
    (range_modified : I → Option T → Bool) where
  unfoldable pub check_range : Option I → Option R → Option T → Cond R
  check_range none range last_modified = with_body range
  check_range (some i) range last_modified =
      if range_modified i last_modified then with_body none else with_body range

  unfoldable pub check_since : Option D → Cond R → Option T → Cond R
  check_since none rest last_modified = rest
  check_since (some since) rest last_modified =
      if on_time (λ t. not (is_modified since t)) last_modified then no_body not_modified else rest

  unfoldable pub check_unmodified : Option D → Cond R → Option T → Cond R
  check_unmodified none rest last_modified = rest
  check_unmodified (some since) rest last_modified =
      if on_time (precondition_passes since) last_modified
      then rest
      else no_body precondition_failed

  unfoldable pub check_none_match : Option (List EntityTag) → Cond R → EntityTag → Cond R
  check_none_match none rest etag = rest
  check_none_match (some tags) rest etag =
      if any (λ e. weak_eq e etag) tags then no_body not_modified else rest

  -- `Conditionals::check`: the four tests, each with what follows it.
  unfoldable pub check : Conditionals D I R → Option T → EntityTag → Cond R
  unfolding check_range check_since check_unmodified check_none_match
  check c last_modified etag =
      check_none_match c.if_none_match
        (check_unmodified c.if_unmodified_since
          (check_since c.if_modified_since (check_range c.if_range c.range last_modified)
            last_modified)
          last_modified)
        etag

pub data SanitizeError : Type 0 where
  invalid_path utf8_error : SanitizeError

-- `PathBuf::push` on Unix: an absolute path replaces the buffer. That of Windows is not modelled.
unfoldable pub push : Text → Text → Text
push buf seg =
    if starts_with seg (codes "/")
    then seg
    else if is_empty buf
    then seg
    else if ends_with b'/' buf
    then buf ++ seg
    else buf ++ b'/' ∷ seg

abbrev pub contains : ℕ → Text → Bool
contains d s = any (λ c. c == d) s

-- The tests of one segment; `windows` is `cfg!(windows)`.
unfoldable pub is_rejected : Bool → Text → Bool
is_rejected windows seg =
    if starts_with seg (codes "..")
    then true
    else if contains 0x5c seg
    then true
    else windows && contains b':' seg

unfoldable pub push_segments : Bool → Text → List Text → Result Text SanitizeError
push_segments windows buf [] = ok buf
push_segments windows buf (seg ∷ segs) =
    let rest = push_segments windows (push buf seg) segs in
    if is_rejected windows seg then err invalid_path else rest

-- `sanitize_path`; `decode_utf8` decodes the percent signs, and fails on what is no UTF-8.
unfoldable pub sanitize_path : Bool → (Text → Option Text) → Text → Text → Result Text SanitizeError
unfolding push_segments
sanitize_path windows decode_utf8 base tail = elim (decode_utf8 tail) [
  | none ↦ err utf8_error
  | some p ↦ push_segments windows base (split (is b'/') p)
]
