-- ===== src/Tests/Deferral.antt =====
-- Runs of body/deferred.rs and layers/deferred.rs.
use ftl.Prelude.{
  ℕ, ◌+◌, ◌≡◌, refl, Bool, true, false, none, some, List, [], ◌∷◌, ◌++◌, leb, ◌==◌, Result, ok, err,
  arith,
}
use mathlib.Core.List.{Memᴰ}
use ftl.Http.{Text}
use ftl.Strings.{codes, split, splitn2, text_eq}
use ftl.Replies.{Maps, Response, into_response, status_code}
use ftl.Deferred.{
  DeferredEncoding, json, cbor, call, encoding_of, find_encoding, encoding_named, contains, asked,
}
use ftl.Deferred as Layer
use ftl.Streams.Json.{Polled, pending, item, ended}
use ftl.Payloads.{single, array, encoded}
use ftl.Timing.Pieces.{tails}
use ftl.Deferred.Queries.{Selects, by_piece, no_value}
use ftl.Payloads.Layered.{call-array}

ran : Unit {0}
unfolding encoding_of find_encoding encoding_named contains asked Layer.new split splitn2 text_eq
    call encoded into_response
ran = tt

-- Header maps as the names that were written, with their values.
abbrev maps : Maps (List (Text × List Text)) (Unit {0})
maps = record {
  no_headers = [];
  is_empty = λ h. false;
  extend = λ h k. h ++ k;
  append = λ h n v. h ++ (n, v ∷ []) ∷ [];
  typed_insert = λ h n vs. h ++ (n, vs) ∷ [];
  no_extensions = tt;
  merge = λ x y. tt;
}

-- A digit, or an error.
abbrev digit : ℕ → Result Text (Unit {0})
digit n = elim (leb n 9) [ true ↦ ok ((n + b'0') ∷ []) | false ↦ err tt ]

abbrev byte : ℕ → Result Text (Unit {0})
byte n = ok (n ∷ [])

abbrev created : Response (List (Text × List Text)) (Unit {0})
created = record { code = 201; headers = (codes "a", codes "b" ∷ []) ∷ []; exts = tt; body = [] }

abbrev polls : List (Polled ℕ)
polls = item 1 ∷ pending ∷ item 2 ∷ ended ∷ ended ∷ []

abbrev layer : DeferredEncoding
unfolding Layer.new
layer = Layer.new

abbrev is_200 : ℕ → Bool
is_200 s = s == 200

-- The first piece has no value; the second asks for CBOR.
selected : Selects layer (some (codes "x&encoding=cbor")) cbor
unfolding ran tails
selected =
    by_piece (codes "x" ∷ []) [] (codes "encoding=cbor")
      (record { whole = ground arith; silent = no_value (ground arith) }, tt)
      (record {
        whole = ground arith;
        key = codes "encoding";
        field = Memᴰ.head refl;
        no_equals = ground arith;
        pair = refl;
      })
      tt

call-array_example :
    call maps is_200 {E = Unit {0}} layer
      (some (codes "x&encoding=cbor"))
      (ok (created, some (λ e. encoded maps digit byte 9 (array polls) e)))
    ≡ ok (record created {
      headers =
          (codes "a", codes "b" ∷ []) ∷ (codes "content-type", codes "application/cbor" ∷ []) ∷ [];
      body = 1 ∷ 2 ∷ [];
    })
unfolding ran
call-array_example =
    call-array maps is_200 digit byte layer (some (codes "x&encoding=cbor")) cbor created 9 polls
      (1 ∷ 2 ∷ []) refl selected refl (omega arith)

-- A value that is no digit.
refused_test :
    call maps is_200 {E = Unit {0}} layer none
      (ok (created, some (λ e. encoded maps digit byte 9 (single 12) e)))
    ≡ ok (into_response maps (status_code 500))
unfolding ran
refused_test = refl
