-- ===== src/Deferred/Queries.antt =====
-- layers/deferred.rs: the encoding that a query asks for.
use ftl.Prelude.{
  ◌≡◌, ◌≢◌, refl, sym, ◌∙◌, true, false, Bool-cases, inl, inr, none, some, Option, List, [], ◌∷◌,
  ◌++◌, All, All-append, arith,
}
use mathlib.Core.List.{Memᴰ}
use ftl.Http.{Text}
use ftl.Strings.{codes, split, is, splitn2, text_eq}
use ftl.Strings.Pieces.{Avoids, splitn2_at, splitn2_of_Avoids, text_eq_iff}
use ftl.Timing.Pieces.{tails, split-tails}
use ftl.Deferred.{
  Encoding, json, cbor, DeferredEncoding, encoding_named, contains, asked, find_encoding,
  encoding_of,
}

-- A query as its pieces, with `&` between them.
abbrev pub query_of : List Text → Text
query_of [] = []
query_of (p ∷ ps) = p ++ tails b'&' ps

-- The names of the encodings.
abbrev pub name_of : Encoding → Text
name_of json = codes "json"
name_of cbor = codes "cbor"

module _ (fields : List Text) where
  -- The piece asks for nothing: it has no `=`, another field, or a value that names no encoding.
  pub data Silent : Text → Type 0 where
    no_value : {piece : Text} → Avoids (is b'=') piece → Silent piece
    other_field :
        (key value : Text)
        → Avoids (is b'=') key
        → (Memᴰ key fields → ⊥)
        → Silent (key ++ b'=' ∷ value)
    no_encoding :
        (key value : Text)
        → Avoids (is b'=') key
        → value ≢ codes "json"
        → value ≢ codes "cbor"
        → Silent (key ++ b'=' ∷ value)

  -- A piece of the query that asks for nothing.
  pub record IsSilent (piece : Text) : Type 0 where
    pub whole : Avoids (is b'&') piece
    pub silent : Silent piece

  -- A piece `key=name`, with one of the fields for its key and the encoding's name for its value.
  pub record IsAsking (piece : Text) (e : Encoding) : Type 0 where
    pub whole : Avoids (is b'&') piece
    pub key : Text
    pub field : Memᴰ key fields
    pub no_equals : Avoids (is b'=') key
    pub pair : piece ≡ key ++ b'=' ∷ name_of e

-- The encoding that a query selects: that of the first piece that asks for one, or the default.
pub data Selects (l : DeferredEncoding) : Option Text → Encoding → Type 0 where
  without : Selects l none l.default_encoding
  unasked :
      (p : Text) (ps : List Text)
      → All (IsSilent l.fields) (p ∷ ps)
      → Selects l (some (query_of (p ∷ ps))) l.default_encoding
  by_piece :
      (before after : List Text) (piece : Text) {e : Encoding}
      → All (IsSilent l.fields) before
      → IsAsking l.fields piece e
      → All (Avoids (is b'&')) after
      → Selects l (some (query_of (before ++ piece ∷ after))) e

contains_of_Mem : (fields : List Text) (t : Text) → Memᴰ t fields → contains fields t ≡ true
unfolding contains
contains_of_Mem [] t h = elim h [ ]
contains_of_Mem (x ∷ xs) t (Memᴰ.head e) = ground (arith, (text_eq_iff x t).1 (sym e))
contains_of_Mem (x ∷ xs) t (Memᴰ.tail h) = ground (arith, contains_of_Mem xs t h)

Mem_of_contains : (fields : List Text) (t : Text) → contains fields t ≡ true → Memᴰ t fields
unfolding contains
Mem_of_contains [] t h = cc
Mem_of_contains (x ∷ xs) t h = elim (Bool-cases (text_eq x t)) [
  | inl e ↦ Memᴰ.head (sym ((text_eq_iff x t).0 e))
  | inr e ↦ Memᴰ.tail (Mem_of_contains xs t (ground arith))
]

contains_other : (fields : List Text) (t : Text) → (Memᴰ t fields → ⊥) → contains fields t ≡ false
contains_other fields t h = elim (Bool-cases (contains fields t)) [
  | inl e ↦ absurd (h (Mem_of_contains fields t e))
  | inr e ↦ e
]

encoding_named-name_of : (e : Encoding) → encoding_named (name_of e) ≡ some e
unfolding encoding_named text_eq
encoding_named-name_of json = refl
encoding_named-name_of cbor = refl

text_eq_other : (s t : Text) → s ≢ t → text_eq s t ≡ false
text_eq_other s t h = elim (Bool-cases (text_eq s t)) [
  | inl e ↦ absurd (h ((text_eq_iff s t).0 e))
  | inr e ↦ e
]

encoding_named-none :
    (value : Text) → value ≢ codes "json" → value ≢ codes "cbor" → encoding_named value ≡ none
unfolding encoding_named
encoding_named-none value j c =
    rw (text_eq_other value (codes "json") j, text_eq_other value (codes "cbor") c) refl

asked-Silent :
    (fields : List Text) (piece : Text)
    → Silent fields piece
    → asked fields (splitn2 b'=' piece) ≡ none
unfolding asked
asked-Silent fields piece (no_value h) = rw (splitn2_of_Avoids b'=' piece h) refl
asked-Silent fields _ (other_field key value h o) =
    rw (splitn2_at b'=' key value h, contains_other fields key o) refl
asked-Silent fields _ (no_encoding key value h j c) =
    rw (splitn2_at b'=' key value h, encoding_named-none value j c)
      (elim (Bool-cases (contains fields key)) [ inl e ↦ rw e refl | inr e ↦ rw e refl ])

asked-asking :
    (fields : List Text) (piece : Text) (e : Encoding)
    → IsAsking fields piece e
    → asked fields (splitn2 b'=' piece) ≡ some e
unfolding asked
asked-asking fields piece e a =
    rw (a.pair, splitn2_at b'=' a.key (name_of e) a.no_equals, contains_of_Mem fields a.key a.field)
      (encoding_named-name_of e)

find_encoding_skip :
    (fields : List Text) (d : Encoding) (before rest : List Text)
    → All (IsSilent fields) before
    → find_encoding fields d (before ++ rest) ≡ find_encoding fields d rest
unfolding find_encoding
find_encoding_skip fields d [] rest h = refl
find_encoding_skip fields d (p ∷ before) rest (s, hs) =
    rw (asked-Silent fields p s.silent) (find_encoding_skip fields d before rest hs)

find_encoding_none :
    (fields : List Text) (d : Encoding) (ps : List Text)
    → All (IsSilent fields) ps
    → find_encoding fields d ps ≡ d
unfolding find_encoding
find_encoding_none fields d [] h = refl
find_encoding_none fields d (p ∷ ps) (s, hs) =
    rw (asked-Silent fields p s.silent) (find_encoding_none fields d ps hs)

silent_pieces :
    (fields pieces : List Text) → All (IsSilent fields) pieces → All (Avoids (is b'&')) pieces
silent_pieces fields [] h = tt
silent_pieces fields (p ∷ ps) (s, hs) = (s.whole, silent_pieces fields ps hs)

split_query :
    (ps : List Text) → ps ≢ [] → All (Avoids (is b'&')) ps → split (is b'&') (query_of ps) ≡ ps
split_query [] n h = absurd (n refl)
split_query (p ∷ ps) n (h, hs) = split-tails b'&' p ps h hs

append_cons-ne-nil : (xs : List Text) (y : Text) (ys : List Text) → xs ++ y ∷ ys ≢ []
append_cons-ne-nil [] y ys e = cc
append_cons-ne-nil (x ∷ xs) y ys e = cc

find_encoding_here :
    (fields : List Text) (d : Encoding) (piece : Text) (after : List Text) (e : Encoding)
    → IsAsking fields piece e
    → find_encoding fields d (piece ∷ after) ≡ e
unfolding find_encoding
find_encoding_here fields d piece after e a = rw (asked-asking fields piece e a) refl

pub encoding_of-eq :
    (l : DeferredEncoding) (query : Option Text) (e : Encoding)
    → Selects l query e
    → encoding_of l query ≡ e
unfolding encoding_of
encoding_of-eq l _ _ without = refl
encoding_of-eq l _ _ (unasked p ps h) =
    rw (split_query (p ∷ ps) (append_cons-ne-nil [] p ps) (silent_pieces l.fields (p ∷ ps) h))
      (find_encoding_none l.fields l.default_encoding (p ∷ ps) h)
encoding_of-eq l _ e (by_piece before after piece h a ha) =
    rw
      (split_query (before ++ piece ∷ after) (append_cons-ne-nil before piece after) (
        All-append (Avoids (is b'&')) before (piece ∷ after) (silent_pieces l.fields before h)
          (a.whole, ha)))
      (find_encoding_skip l.fields l.default_encoding before (piece ∷ after) h
        ∙ find_encoding_here l.fields l.default_encoding piece after e a)
