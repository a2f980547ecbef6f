-- ===== src/Tests/Extraction.antt =====
-- Runs of params.rs, extract/, response.rs and ws.rs.
use ftl.Prelude.{
  ℕ, ◌≡◌, ◌⊎◌, ◌↔◌, refl, true, false, Option, none, some, List, [], ◌∷◌, ◌++◌, ok, err, all, All,
  not,
}
use ftl.Http.{Text, get, post}
use ftl.Strings.{
  codes, trim, trim_matches, text_eq, eq_ignore_ascii_case, split, splitn2, is, is_whitespace,
  trim_end_matches,
}
use ftl.Params.{params, invalid_utf8, insert_all, collect, path, parse_segments}
use ftl.Params.Decoded.{Decodes, FailsAt}
use ftl.Params.Nested.{join, insert_all-join}
use ftl.Replies.{
  Maps, Response, status_code, text, status, tuple, typed, nothing, into_response, present,
}
use ftl.Replies.Statuses.{first_set, written, into_response-code}
use ftl.Extract.{scheme, parse_forwarded}
use ftl.Strings.Pieces.{Avoids_of_all}
use ftl.Extract.Schemes.{IsPair, IsOther, pair_text, element, after_comma, scheme_forwarded}
use ftl.Extract.Errors.{unsupported_media_type, error_response}
use ftl.Extract.Types.{BodyRequest, Extractable, one_of, one_of_any, IsFirst, one_of-IsFirst}
use ftl.Ws.{WsRequest, http_11, handshake}
use ftl.Ws.Handshake.{IsUpgrade, handshake-switches_iff}

ran : Unit {0}
unfolding insert_all collect path parse_segments into_response one_of one_of_any handshake scheme
    parse_forwarded trim trim_matches text_eq eq_ignore_ascii_case split splitn2 is_whitespace
    trim_end_matches error_response first_set written
ran = tt

-- A decoding that fails on the text "%".
abbrev decoded : Text → Option Text
unfolding text_eq
decoded t = elim (text_eq t (codes "%")) [ true ↦ none | false ↦ some t ]

abbrev outer : List (Text × Text)
outer = (codes "id", codes "7") ∷ []

abbrev inner : List (List (Text × Text))
inner = ((codes "file", codes "a") ∷ []) ∷ ((codes "bad", codes "%") ∷ []) ∷ []

insert_all-join_example :
    ((qs : List (Text × Text)) × Decodes decoded (join (outer ∷ inner)) qs
      × (insert_all decoded none (outer ∷ inner) ≡ some (params qs)))
    ⊎ ((k : Text) × FailsAt decoded (join (outer ∷ inner)) k
        × (insert_all decoded none (outer ∷ inner) ≡ some (invalid_utf8 k)))
insert_all-join_example = insert_all-join decoded outer inner

kept_test : insert_all decoded none (outer ∷ []) ≡ some (params outer)
unfolding ran decoded
kept_test = refl

insert_all_test : insert_all decoded none (outer ∷ inner) ≡ some (invalid_utf8 (codes "bad"))
unfolding ran decoded
insert_all_test = refl

-- Header maps as lists of values of one name, and extensions as nothing.
abbrev maps : Maps (List Text) (Unit {0})
maps = record {
  no_headers = [];
  is_empty = λ h. false;
  extend = λ h k. k;
  append = λ h n v. h ++ v ∷ [];
  typed_insert = λ h n vs. vs;
  no_extensions = tt;
  merge = λ x y. tt;
}

abbrev reply : ftl.Replies.Responder (List Text) (Unit {0})
reply = tuple (tuple (text (codes "gone")) (status 404 ∷ [])) (status 200 ∷ status 201 ∷ [])

into_response-code_example : (into_response maps reply).code ≡ first_set 200 (written reply)
into_response-code_example = into_response-code maps reply

reply_test : (into_response maps reply).code ≡ 404
unfolding ran
reply_test = refl

-- A scheme is any text but the empty one.
abbrev to_scheme : Text → Option Text
to_scheme [] = none
to_scheme (c ∷ s) = some (c ∷ s)

abbrev forwarded : Text
forwarded = codes "for=10.0.0.1;Proto=\"https\";by=a, proto=http"

plain-IsPair :
    (key value : Text)
    → all (λ c. not (is b'=' c)) key ≡ true
    → all (λ c. not (is b';' c)) (pair_text (key, value)) ≡ true
    → all (λ c. not (is b',' c)) (pair_text (key, value)) ≡ true
    → IsPair (key, value)
plain-IsPair key value h k l = record {
  no_key = Avoids_of_all (is b'=') key h;
  one_pair = Avoids_of_all (is b';') (pair_text (key, value)) k;
  one_element = Avoids_of_all (is b',') (pair_text (key, value)) l;
}

for-IsOther : All IsOther ((codes "for", codes "10.0.0.1") ∷ [])
unfolding ran
for-IsOther = ((plain-IsPair (codes "for") (codes "10.0.0.1") refl refl refl, refl), tt)

scheme_forwarded_example :
    scheme to_scheme to_scheme
      (some (
        element (
          ((codes "for", codes "10.0.0.1") ∷ [])
          ++ (codes "Proto", codes "\"https\"") ∷ (codes "by", codes "a") ∷ [])
        ++ after_comma (some (codes " proto=http"))))
      (some (codes "http"))
      none
    ≡ ok (codes "https")
unfolding ran
scheme_forwarded_example =
    scheme_forwarded to_scheme to_scheme ((codes "for", codes "10.0.0.1") ∷ [])
      ((codes "by", codes "a") ∷ []) (codes "Proto") (codes "\"https\"")
      (some (codes " proto=http")) (some (codes "http")) none for-IsOther
      (plain-IsPair (codes "Proto") (codes "\"https\"") refl refl refl) refl
      (plain-IsPair (codes "by") (codes "a") refl refl refl, tt) refl

scheme_test : scheme to_scheme to_scheme (some forwarded) none none ≡ ok (codes "https")
unfolding ran
scheme_test = refl

-- A form that is posted, and a body whose type has a parameter.
abbrev posted : Text → BodyRequest
posted t = record {
  method = post;
  content_length = some (codes "3");
  transfer_encoding = none;
  content_type = some t;
}

abbrev readers : List (Extractable ℕ)
unfolding one_of_any
readers = one_of_any true true (λ r. ok 1) (λ r. ok 2) (λ r. ok 3)

one_of-IsFirst_example :
    IsFirst readers
      (codes "application/cbor")
      (posted (codes "application/cbor"))
      (one_of readers (posted (codes "application/cbor")))
one_of-IsFirst_example =
    one_of-IsFirst readers (posted (codes "application/cbor")) (codes "application/cbor")
      (record { no_trace = λ e. cc; sized = refl }) refl

one_of_test :
    one_of readers (posted (codes "application/json; charset=utf-8")) ≡ err unsupported_media_type
unfolding ran
one_of_test = refl

abbrev upgrade : WsRequest
upgrade = record {
  version = http_11;
  method = get;
  connection = some true;
  upgrade = some true;
  key = some (codes "k");
  protocol = none;
  ws_version = some true;
  ws_protocol = some (codes "chat, superchat");
  on_upgrade = true;
}

handshake-switches_iff_example :
    ((into_response maps (handshake (λ k. k ∷ []) upgrade)).code ≡ 101) ↔ IsUpgrade upgrade
handshake-switches_iff_example = handshake-switches_iff maps (λ k. k ∷ []) upgrade

handshake_test : (into_response maps (handshake (λ k. k ∷ []) upgrade)).code ≡ 101
unfolding ran
handshake_test = refl
