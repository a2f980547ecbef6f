-- ===== src/Extract/Schemes.antt =====
-- extract/scheme.rs: `proto` in a `Forwarded` header.
use ftl.Prelude.{
  ◌≡◌, ◌≢◌, refl, true, false, Option, none, some, List, [], ◌∷◌, ◌++◌, map, All, All-append, ok,
}
use mathlib.Core.List.{append-nil, map-append}
use ftl.Http.{Text}
use ftl.Strings.{codes, split, is, eq_ignore_ascii_case, trim, trim_matches}
use ftl.Strings.Pieces.{Avoids, split-append, split_of_Avoids, splitn2_at}
use ftl.Timing.Pieces.{tails, split-tails, tails-Avoids}
use ftl.Extract.{first_of, find_proto, parse_forwarded, scheme}

-- A pair of a forwarded element, and whether it is another than `proto`.
abbrev pub pair_text : Text × Text → Text
pair_text (key, value) = key ++ b'=' ∷ value

pub record IsPair (pair : Text × Text) : Type 0 where
  pub no_key : Avoids (is b'=') pair.0
  pub one_pair : Avoids (is b';') (pair_text pair)
  pub one_element : Avoids (is b',') (pair_text pair)

abbrev pub IsOther : Text × Text → Type 0
IsOther pair = IsPair pair × (eq_ignore_ascii_case (trim pair.0) (codes "proto") ≡ false)

-- The text of an element, `pair;pair;...`, and of a header that it begins.
abbrev pub element : List (Text × Text) → Text
element [] = []
element (pair ∷ pairs) = pair_text pair ++ tails b';' (map pair_text pairs)

abbrev pub after_comma : Option Text → Text
after_comma none = []
after_comma (some others) = b',' ∷ others

find_proto_skip :
    (before : List (Text × Text)) (rest : List Text)
    → All IsOther before
    → find_proto (map pair_text before ++ rest) ≡ find_proto rest
unfolding find_proto
find_proto_skip [] rest h = refl
find_proto_skip ((k, v) ∷ before) rest ((p, n), hs) =
    rw (splitn2_at b'=' k v p.no_key, n) (find_proto_skip before rest hs)

find_proto_here :
    (key value : Text) (rest : List Text)
    → Avoids (is b'=') key
    → eq_ignore_ascii_case (trim key) (codes "proto") ≡ true
    → find_proto (pair_text (key, value) ∷ rest) ≡ some (trim_matches b'"' (trim value))
unfolding find_proto
find_proto_here key value rest h k = rw (splitn2_at b'=' key value h, k)

pieces-Avoids :
    (pairs : List (Text × Text)) → All IsPair pairs → All (Avoids (is b';')) (map pair_text pairs)
pieces-Avoids [] h = tt
pieces-Avoids (p ∷ ps) (h, hs) = (h.one_pair, pieces-Avoids ps hs)

elements-Avoids :
    (pairs : List (Text × Text)) → All IsPair pairs → All (Avoids (is b',')) (map pair_text pairs)
elements-Avoids [] h = tt
elements-Avoids (p ∷ ps) (h, hs) = (h.one_element, elements-Avoids ps hs)

element-Avoids : (pairs : List (Text × Text)) → All IsPair pairs → Avoids (is b',') (element pairs)
element-Avoids [] h = tt
element-Avoids (p ∷ ps) (h, hs) =
    All-append (λ c. is b',' c ≡ false) (pair_text p) (tails b';' (map pair_text ps)) h.one_element
      (tails-Avoids (is b',') b';' (map pair_text ps) refl (elements-Avoids ps hs))

first_element :
    (e : Text) (others : Option Text)
    → Avoids (is b',') e
    → first_of (split (is b',') (e ++ after_comma others)) ≡ e
unfolding first_of
first_element e none h = rw (append-nil, split_of_Avoids (is b',') e h)
first_element e (some t) h = rw (split-append (is b',') e t b',' h refl)

-- An element with a pair in it is cut into its pairs.
split-element :
    (pairs : List (Text × Text))
    → pairs ≢ []
    → All IsPair pairs
    → split (is b';') (element pairs) ≡ map pair_text pairs
split-element [] n h = absurd (n refl)
split-element (p ∷ ps) n (h, hs) =
    split-tails b';' (pair_text p) (map pair_text ps) h.one_pair (pieces-Avoids ps hs)

others-IsPair : (pairs : List (Text × Text)) → All IsOther pairs → All IsPair pairs
others-IsPair [] h = tt
others-IsPair (p ∷ ps) ((h, _), hs) = (h, others-IsPair ps hs)

append_cons-ne-nil {ℓ} : {A : Type ℓ} (xs : List A) (y : A) (ys : List A) → xs ++ y ∷ ys ≢ []
append_cons-ne-nil [] y ys e = cc
append_cons-ne-nil (x ∷ xs) y ys e = cc

pub parse_forwarded_lem :
    (before after : List (Text × Text)) (key value : Text) (others : Option Text)
    → All IsOther before
    → IsPair (key, value)
    → eq_ignore_ascii_case (trim key) (codes "proto") ≡ true
    → All IsPair after
    → parse_forwarded (some (element (before ++ (key, value) ∷ after) ++ after_comma others))
      ≡ some (trim_matches b'"' (trim value))
unfolding parse_forwarded
parse_forwarded_lem before after key value others hb hp hk ha =
    let pairs : List (Text × Text) = before ++ (key, value) ∷ after in
    let good : All IsPair pairs =
      All-append IsPair before ((key, value) ∷ after) (others-IsPair before hb) (hp, ha) in
    rw
      (
        first_element (element pairs) others (element-Avoids pairs good),
        split-element pairs (append_cons-ne-nil before (key, value) after) good,
        map-append pair_text before ((key, value) ∷ after),
        find_proto_skip before (pair_text (key, value) ∷ map pair_text after) hb,
      )
      (find_proto_here key value (map pair_text after) hp.no_key hk)

-- If the first element of the `Forwarded` header has a pair whose key is `proto` in any case, the
-- pairs before it have other keys, and the pairs are well formed, then the scheme is the one that
-- its value without white space and quotation marks parses to, whatever stands behind it in the
-- header, in `X-Forwarded-Proto` and in the URI, if it parses.
pub scheme_forwarded {ℓ} :
    {Scheme : Type ℓ} (from_str try_from : Text → Option Scheme) (before after : List (Text × Text))
    (key value : Text) (others x_forwarded : Option Text) (uri : Option Scheme) {s : Scheme}
    → All IsOther before
    → IsPair (key, value)
    → eq_ignore_ascii_case (trim key) (codes "proto") ≡ true
    → All IsPair after
    → from_str (trim_matches b'"' (trim value)) ≡ some s
    → scheme from_str try_from
        (some (element (before ++ (key, value) ∷ after) ++ after_comma others))
        x_forwarded
        uri
      ≡ ok s
unfolding scheme
scheme_forwarded from_str try_from before after key value others x_forwarded uri hb hp hk ha hs =
    rw (parse_forwarded_lem before after key value others hb hp hk ha, hs)
