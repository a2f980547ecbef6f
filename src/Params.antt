-- ===== src/Params.antt =====
-- params.rs and extract/path.rs: the parameters of the matched routes, and the extractor of their
-- segments. Percent-decoding to UTF-8 is another crate's: `decode`. What a segment's text is parsed
-- to is its type's `FromStr`.
use ftl.Prelude.{Option, none, some, List, [], ◌∷◌, ◌++◌, ◌≡◌, if◌then◌else◌, Result, ok, err}
use ftl.Http.{Text}
use ftl.Strings.{text_eq}
pub mod Decoded
pub mod Nested

-- `UrlParams`
pub data UrlParams : Type 0 where
  params : List (Text × Text) → UrlParams
  invalid_utf8 : Text → UrlParams

-- `collect::<Result<Vec<_>, _>>`: the first key whose value is not decoded is the error.
unfoldable pub keep :
    Text → Text → Result (List (Text × Text)) Text → Result (List (Text × Text)) Text
keep k v (ok ps) = ok ((k, v) ∷ ps)
keep k v (err e) = err e

unfoldable pub add :
    Text → Option Text → Result (List (Text × Text)) Text → Result (List (Text × Text)) Text
unfolding keep
add k none rest = err k
add k (some v) rest = keep k v rest

unfoldable pub collect :
    (Text → Option Text) → List (Text × Text) → Result (List (Text × Text)) Text
unfolding add
collect decode [] = ok []
collect decode ((k, v) ∷ ps) = add k (decode v) (collect decode ps)

unfoldable pub store : Option UrlParams → Result (List (Text × Text)) Text → Option UrlParams
store (some (invalid_utf8 k)) r = some (invalid_utf8 k)
store (some (params current)) (err k) = some (invalid_utf8 k)
store none (err k) = some (invalid_utf8 k)
store (some (params current)) (ok ps) = some (params (current ++ ps))
store none (ok ps) = some (params ps)

unfoldable pub insert_url_params :
    (Text → Option Text) → Option UrlParams → List (Text × Text) → Option UrlParams
unfolding store collect
insert_url_params decode (some (invalid_utf8 k)) ps = some (invalid_utf8 k)
insert_url_params decode (some (params current)) ps =
    store (some (params current)) (collect decode ps)
insert_url_params decode none ps = store none (collect decode ps)

-- A request goes through one router after another, each with the parameters of its match.
unfoldable pub insert_all :
    (Text → Option Text) → Option UrlParams → List (List (Text × Text)) → Option UrlParams
unfolding insert_url_params
insert_all decode current [] = current
insert_all decode current (ps ∷ pss) = insert_all decode (insert_url_params decode current ps) pss

pub data PathError : Type 0 where
  missing_parameters : PathError
  missing_segment : Text → PathError
  invalid_segment : Text → PathError
  invalid_utf8_in_path_param : Text → PathError

-- `find_map` over the parameters.
unfoldable pub find : Text → List (Text × Text) → Option Text
find name [] = none
find name ((k, v) ∷ ps) = let rest = find name ps in if text_eq k name then some v else rest

module _ {ℓ} {V : Type ℓ} where
  of_parsed : Result V Text → Result V PathError
  of_parsed (ok v) = ok v
  of_parsed (err e) = err (invalid_segment e)

  parse_found : Text → (Text → Result V Text) → Option Text → Result V PathError
  unfolding of_parsed
  parse_found name from_str none = err (missing_segment name)
  parse_found name from_str (some s) = of_parsed (from_str s)

  -- `T::parse_segments` for one segment, its `NAME` and its `FromStr`.
  unfoldable pub parse_segment : Text × (Text → Result V Text) → UrlParams → Result V PathError
  unfolding parse_found find
  parse_segment (name, from_str) (invalid_utf8 k) = err (invalid_utf8_in_path_param k)
  parse_segment (name, from_str) (params ps) = parse_found name from_str (find name ps)

  next_segment : Result V PathError → Result (List V) PathError → Result (List V) PathError
  next_segment (err e) rest = err e
  next_segment (ok v) (err e) = err e
  next_segment (ok v) (ok vs) = ok (v ∷ vs)

  -- For a tuple of segments, left to right.
  unfoldable pub parse_segments :
      List (Text × (Text → Result V Text)) → UrlParams → Result (List V) PathError
  unfolding parse_segment next_segment
  parse_segments [] u = ok []
  parse_segments (s ∷ ss) u = next_segment (parse_segment s u) (parse_segments ss u)

  -- `Path::from_request_parts`
  unfoldable pub path :
      List (Text × (Text → Result V Text)) → Option UrlParams → Result (List V) PathError
  unfolding parse_segments
  path ss none = err missing_parameters
  path ss (some u) = parse_segments ss u
