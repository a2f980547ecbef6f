-- ===== src/Extract.antt =====
-- extract/scheme.rs, extract/one_of.rs, `extract_authority` of extract/mod.rs, and error.rs. The
-- parsers of schemes and authorities are the `http` crate's, as is the text of a header's value; a
-- header is its first value.
use ftl.Prelude.{
  ℕ, Bool, true, false, not, ◌&&◌, ◌||◌, Option, none, some, is_some, List, [], ◌∷◌, ◌≡◌,
  if◌then◌else◌, Result, ok, err,
}
use ftl.Http.{Text, Method, trace}
use ftl.Strings.{codes, split, is, splitn2, eq_ignore_ascii_case, text_eq, trim, trim_matches}
pub mod Schemes
pub mod Types
pub mod Errors

-- The first piece that `split` gives.
unfoldable pub first_of : List Text → Text
first_of [] = []
first_of (x ∷ xs) = x

-- `find_map`'s closure, on what `split_once('=')` gives.
unfoldable pub proto_of : Text × Option Text → Option Text
unfolding trim_matches
proto_of (key, none) = none
proto_of (key, some value) =
    if eq_ignore_ascii_case (trim key) (codes "proto")
    then some (trim_matches b'"' (trim value))
    else none

or_else {ℓ} : {A : Type ℓ} → Option A → Option A → Option A
or_else none o = o
or_else (some a) o = some a

unfoldable pub find_proto : List Text → Option Text
unfolding proto_of or_else
find_proto [] = none
find_proto (pair ∷ pairs) = or_else (proto_of (splitn2 b'=' pair)) (find_proto pairs)

-- `parse_forwarded`, on the text of the first `Forwarded` header.
unfoldable pub parse_forwarded : Option Text → Option Text
unfolding find_proto first_of
parse_forwarded none = none
parse_forwarded (some forwarded) =
    find_proto (split (is b';') (first_of (split (is b',') forwarded)))

pub data SchemeError : Type 0 where
  invalid_scheme missing_scheme : SchemeError

module _ {ℓ} {Scheme : Type ℓ} (from_str try_from : Text → Option Scheme) where
  parsed : Option Scheme → Result Scheme SchemeError
  parsed none = err invalid_scheme
  parsed (some s) = ok s

  from_uri : Option Scheme → Result Scheme SchemeError
  from_uri none = err missing_scheme
  from_uri (some s) = ok s

  from_x_forwarded : Option Text → Option Scheme → Result Scheme SchemeError
  unfolding parsed from_uri
  from_x_forwarded none uri = from_uri uri
  from_x_forwarded (some value) uri = parsed (try_from value)

  from_forwarded : Option Text → Option Text → Option Scheme → Result Scheme SchemeError
  unfolding parsed from_x_forwarded
  from_forwarded none x_forwarded uri = from_x_forwarded x_forwarded uri
  from_forwarded (some proto) x_forwarded uri = parsed (from_str proto)

  -- `Scheme::from_request_parts`: the readable `Forwarded`, the bytes of `X-Forwarded-Proto`, the
  -- URI's scheme.
  unfoldable pub scheme : Option Text → Option Text → Option Scheme → Result Scheme SchemeError
  unfolding from_forwarded
  scheme forwarded x_forwarded uri = from_forwarded (parse_forwarded forwarded) x_forwarded uri

pub data AuthorityError : Type 0 where
  missing_authority invalid_authority : AuthorityError

module _ {ℓ κ} {Value : Type ℓ} {Authority : Type κ} (to_str : Value → Option Text)
    (from_str : Text → Option Authority) where
  authority_of : Option Authority → Result Authority AuthorityError
  authority_of none = err invalid_authority
  authority_of (some a) = ok a

  from_text : Option Text → Result Authority AuthorityError
  unfolding authority_of
  from_text none = err invalid_authority
  from_text (some s) = authority_of (from_str s)

  unfoldable pub from_header : Option Value → Result Authority AuthorityError
  unfolding from_text
  from_header none = err missing_authority
  from_header (some v) = from_text (to_str v)

  prefer : Option Authority → Result Authority AuthorityError → Result Authority AuthorityError
  prefer (some a) (ok b) = ok b
  prefer (some a) (err e) = ok a
  prefer none (ok b) = ok b
  prefer none (err e) = err e

  -- `extract_authority`, on the URI's authority and the `Host` header.
  unfoldable pub extract_authority :
      Option Authority → Option Value → Result Authority AuthorityError
  unfolding prefer from_header
  extract_authority uri host = prefer uri (from_header host)
