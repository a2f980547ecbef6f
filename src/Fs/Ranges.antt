-- ===== src/Fs/Ranges.antt =====
-- fs.rs: `bytes_range`.
use ftl.Prelude.{ℕ, ◌+◌, ◌-◌, ◌^◌, ◌≤◌, ◌<◌, ◌≡◌, ◌⊎◌, Option, none, some, ok, err, arith}
use ftl.Fs.{Bound, included, bytes_range}

-- Whenever `bytes_range` gives a range, it lies in the file and is not empty, unless no range was
-- asked for and it is the whole file.
pub bytes_range_bounds :
    (range : Option (Bound × Bound)) (max_len start end : ℕ)
    → bytes_range range max_len ≡ ok (start, end)
    → (start ≤ end)
      × (end ≤ max_len)
      × ((start < end) ⊎ ((range ≡ none) × (start ≡ 0) × (end ≡ max_len)))
unfolding bytes_range
bytes_range_bounds none max_len start end h = ground arith
bytes_range_bounds (some (s, e)) max_len start end h = ground arith

-- For a file shorter than 2^64 and a first satisfiable range from `first` to `last` inclusive,
-- `last` below 2^64 - 1: it is served as it is when it is not reversed and its last byte is in the
-- file; when its last byte is just behind the file, it is cut at the file's end; it is refused when
-- it is reversed, ends farther behind, or starts behind the file.
pub bytes_range_included :
    (first last max_len : ℕ)
    → max_len < 2 ^ 64
    → last < 2 ^ 64 - 1
    → ((first ≤ last)
        × (last < max_len)
        × (bytes_range (some (included first, included last)) max_len ≡ ok (first, last + 1)))
      ⊎ ((first < max_len)
          × (last ≡ max_len)
          × (bytes_range (some (included first, included last)) max_len ≡ ok (first, max_len)))
      ⊎ (((last < first) ⊎ (max_len < last) ⊎ (max_len ≤ first))
          × (bytes_range (some (included first, included last)) max_len ≡ err tt))
unfolding bytes_range
bytes_range_included first last max_len h k = ground arith
