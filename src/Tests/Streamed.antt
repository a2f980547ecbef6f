-- ===== src/Tests/Streamed.antt =====
-- Runs of headers/server_timing.rs, layers/compression/ and body/.
use ftl.Prelude.{
  ℕ, ◌+◌, ◌≡◌, refl, true, false, Option, none, some, List, [], ◌∷◌, ◌++◌, leb, map, ok, arith,
}
use ftl.Http.{Text}
use ftl.Strings.{
  codes, is, trim, trim_matches, is_whitespace, trim_end_matches, split, splitn2, text_eq,
}
use ftl.Strings.Pieces.{Avoids_of_all}
use ftl.Decimal.{print_u128, parse_u64, value}
use ftl.Timing.{ServerTiming, parse_duration, take3}
use ftl.Timing as Timing
use ftl.Timing.Pieces.{IsTiming, rounded}
use ftl.Timing.Roundtrip.{timings_roundtrip}
use ftl.Encoding.{AcceptEncoding, ContentEncoding, all as all_encodings}
use ftl.Compression.{CompressionLayer, new, Encoder, bytes, trailers, Response, call}
use ftl.Compression.Chosen.{Weighs, IsChosen}
use ftl.Compression.Calls.{Leaves, call-Leaves}
use ftl.Streams.Json.{Polled, pending, ended, failed, item, array_body}
use ftl.Streams.Emitted.{elements, array_body-elements}
use ftl.Streams.Cbor.{stream_array}
use ftl.Streams.Cbor.Emitted.{stream_array-emitted}
use ftl.Streams.Cbor.Resumes.{values_then, fused, failure_resumes}
use ftl.Streams.Reader.{Read, gives, drain, size_hint}
use ftl.Streams.Reader as Reader

ran : Unit {0}
unfolding trim trim_matches is_whitespace trim_end_matches split splitn2 text_eq print_u128
    parse_u64 value parse_duration take3 Timing.written array_body drain size_hint Reader.new
    Timing.decode Timing.encode Timing.write_timing
ran = tt

abbrev timings : List ServerTiming
timings =
    record {
      name = codes "cache";
      description = some (codes "Cache Read");
      duration = some 23200000;
    }
    ∷ record { name = codes "app"; description = none; duration = some 1500 }
    ∷ []

timings-IsTiming :
    (IsTiming (record {
      name = codes "cache";
      description = some (codes "Cache Read");
      duration = some 23200000;
    }))
    × (IsTiming (record { name = codes "app"; description = none; duration = some 1500 }))
unfolding ran
timings-IsTiming = (
  record {
    trimmed = refl;
    one_item = Avoids_of_all (is b',') (codes "cache") refl;
    one_entry = Avoids_of_all (is b';') (codes "cache") refl;
    no_key = Avoids_of_all (is b'=') (codes "cache") refl;
    quotable = (
      Avoids_of_all (is b',') (codes "Cache Read") refl,
      Avoids_of_all (is b';') (codes "Cache Read") refl,
      refl,
    );
    in_range = omega arith;
  },
  record {
    trimmed = refl;
    one_item = Avoids_of_all (is b',') (codes "app") refl;
    one_entry = Avoids_of_all (is b';') (codes "app") refl;
    no_key = Avoids_of_all (is b'=') (codes "app") refl;
    quotable = tt;
    in_range = omega arith;
  },
)

timings_roundtrip_example :
    Timing.decode some (Timing.encode some timings) ≡ ok (map rounded timings)
timings_roundtrip_example =
    timings_roundtrip some some (Timing.written timings) timings
      (timings-IsTiming.0, (timings-IsTiming.1, tt)) refl refl

written_test : Timing.written timings ≡ codes "cache;desc=\"Cache Read\";dur=23.200,app;dur=0.001"
unfolding ran
written_test = refl

parse_duration_test : parse_duration (codes "2.4") ≡ some 2004000
unfolding ran
parse_duration_test = refl

-- A page that may be compressed, by an encoder that marks its output.
abbrev page : Response
page = record {
  headers = record {
    content_encoding = [];
    content_range = [];
    content_type = codes "text/html" ∷ [];
    content_length = codes "2" ∷ [];
    vary = [];
    accept_ranges = [];
  };
  body = bytes (codes "ab") ∷ trailers (codes "t") ∷ bytes (codes "c") ∷ [];
}

abbrev mark : Encoder → Text → Text
mark c t = b'#' ∷ t

abbrev unmark : Encoder → Text → Text
unmark c [] = []
unmark c (x ∷ t) = t

abbrev layer : CompressionLayer
unfolding new all_encodings
layer = new all_encodings (λ h. true)

call-Leaves_example :
    (a : AcceptEncoding) × Weighs some (codes "gzip, br" ∷ []) a
    × ((e : ContentEncoding) × IsChosen a layer.filter e
        × ((s : Response) × (call mark {E = ℕ} layer some (codes "gzip, br" ∷ []) (ok page) ≡ ok s)
            × Leaves mark layer e page s))
call-Leaves_example = call-Leaves mark layer some (codes "gzip, br" ∷ []) page

-- Three elements, of which the third cannot be written.
abbrev small : ℕ → Option Text
small n = elim (leb n 9) [ true ↦ some ((n + b'0') ∷ []) | false ↦ none ]

abbrev polls : List (Polled ℕ)
polls = item 1 ∷ pending ∷ item 2 ∷ item 12 ∷ item 3 ∷ ended ∷ []

array_body-elements_example :
    array_body small 9 polls ≡ (b'[' ∷ elements ((b'1' ∷ []) ∷ (b'2' ∷ []) ∷ []) ++ b']' ∷ [], true)
array_body-elements_example =
    array_body-elements small 9 polls ((b'1' ∷ []) ∷ (b'2' ∷ []) ∷ []) refl (omega arith)

array_body_test : array_body small 9 polls ≡ (codes "[1,2]", true)
unfolding ran
array_body_test = refl

abbrev reads : List (Read × ℕ)
reads = (gives 2, 0) ∷ (gives 9, 1) ∷ (gives 9, 2) ∷ []

abbrev sixteen : ℕ → ℕ
sixteen n = 16

drain_test :
    (drain {V = ℕ} (λ t. none) sixteen reads (Reader.new (codes "abcdef") 8 0 5)).0 ≡ codes "abcde"
unfolding ran
drain_test = refl

-- A number is written as one byte.
abbrev one_byte : ℕ → Option Text
one_byte n = some (n ∷ [])

stream_array-emitted_example :
    stream_array one_byte 9 (item 1 ∷ pending ∷ item 2 ∷ fused one_byte) ≡ (1 ∷ 2 ∷ [], true)
stream_array-emitted_example =
    stream_array-emitted one_byte 9 (item 1 ∷ pending ∷ item 2 ∷ fused one_byte) (1 ∷ 2 ∷ []) refl
      (omega arith)

-- The stream fails after 1, and 2 is sent all the same.
failure_resumes_example :
    stream_array one_byte 9
      (values_then one_byte (1 ∷ []) (failed ∷ values_then one_byte (2 ∷ []) (fused one_byte)))
    ≡ (1 ∷ 2 ∷ [], true)
failure_resumes_example =
    failure_resumes one_byte (1 ∷ []) (2 ∷ []) 9 (1 ∷ []) (2 ∷ []) refl refl (omega arith)
      (omega arith) (omega arith)
