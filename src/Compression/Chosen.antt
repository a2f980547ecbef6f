-- ===== src/Compression/Chosen.antt =====
-- layers/compression/mod.rs: the encoding that is chosen for a response, said apart from the code.
use ftl.Prelude.{
  ◌<◌, ◌≡◌, ◌⊎◌, inl, inr, true, Option, none, some, Option-cases, List, [], ◌∷◌, refl, arith,
}
use ftl.Http.{Text}
use ftl.Encoding.{
  FilterEncoding, AcceptEncoding, ContentEncoding, identity, deflate, gzip, brotli, zstd,
  preferred_encoding, allows,
}
use ftl.Encoding as Encoding
use ftl.Encoding.Preferred.{
  weight_of, enabled, Before, preferred_encoding-allowed, preferred_encoding-best,
}
use ftl.Compression.{accepted, or_default}

abbrev unweighed : AcceptEncoding
unweighed = record { gzip = 0; br = 0; deflate = 0; zstd = 0 }

-- The weights that a request gives: those that its `Accept-Encoding` decodes to, or zero for all
-- when it has none or one that does not decode.
pub data Weighs (to_str : Text → Option Text) : List Text → AcceptEncoding → Type 0 where
  no_header : Weighs to_str [] unweighed
  decoded :
      {v : Text} {vs : List Text} {a : AcceptEncoding}
      → Encoding.decode to_str (v ∷ vs) ≡ some a
      → Weighs to_str (v ∷ vs) a
  undecodable :
      {v : Text} {vs : List Text}
      → Encoding.decode to_str (v ∷ vs) ≡ none
      → Weighs to_str (v ∷ vs) unweighed

abbrev IsAccepted : AcceptEncoding → ContentEncoding → Type 0
IsAccepted a e = (e ≡ identity) ⊎ (0 < weight_of a e)

-- Of the encodings that the filter enables and that have a weight, the one that comes last; the
-- identity needs no weight.
pub record IsChosen (a : AcceptEncoding) (f : FilterEncoding) (e : ContentEncoding) : Type 0 where
  pub is_enabled : enabled f e ≡ true
  pub is_accepted : IsAccepted a e
  pub is_last : (d : ContentEncoding) → enabled f d ≡ true → IsAccepted a d → Before a d e

IsAccepted-allows : (a : AcceptEncoding) (e : ContentEncoding) → IsAccepted a e → allows a e ≡ true
unfolding allows
IsAccepted-allows a e h = ground arith

allows-IsAccepted : (a : AcceptEncoding) (e : ContentEncoding) → allows a e ≡ true → IsAccepted a e
unfolding allows
allows-IsAccepted a identity h = inl refl
allows-IsAccepted a e h = inr (ground arith)

pub preferred_encoding-IsChosen :
    (a : AcceptEncoding) (f : FilterEncoding) → IsChosen a f (preferred_encoding a f)
preferred_encoding-IsChosen a f =
    let good = preferred_encoding-allowed a f in
    record {
      is_enabled = good.0;
      is_accepted = allows-IsAccepted a (preferred_encoding a f) good.1;
      is_last = λ d on h. preferred_encoding-best a f d on (IsAccepted-allows a d h);
    }

pub accepted-Weighs :
    (to_str : Text → Option Text) (accept : List Text)
    → Weighs to_str accept (accepted to_str accept)
unfolding accepted or_default Encoding.default
accepted-Weighs to_str [] = no_header
accepted-Weighs to_str (v ∷ vs) = elim (Option-cases (Encoding.decode to_str (v ∷ vs))) [
  | inl h ↦ rw h (undecodable h)
  | inr (a, h) ↦ rw h (decoded h)
]
