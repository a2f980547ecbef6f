-- ===== src/Extract/Types.antt =====
-- extract/one_of.rs: a body in one of several content types. Reading a body as each is a parameter,
-- as the parsers are other crates'.
use mathlib.Core.Path.{subst}
use ftl.Prelude.{
  sym, ◌≡◌, ◌≢◌, ◌⊎◌, ◌++◌, ap, All, Bool, true, false, not, ◌||◌, Option, none, some, is_some,
  List, [], ◌∷◌, if◌then◌else◌, Result, err, Bool-cases, inl, inr, refl, arith,
}
use ftl.Http.{Text, Method, trace}
use ftl.Strings.{codes, text_eq}
use ftl.Strings.Pieces.{text_eq_iff}
use ftl.Extract.Errors.{Error, method_not_allowed, missing_header, unsupported_media_type}

pub record BodyRequest : Type 0 where
  pub method : Method
  pub content_length : Option Text
  pub transfer_encoding : Option Text
  pub content_type : Option Text

-- An `Extractable`: the type that it matches, if its feature is on, and its extraction. `()` stands
-- in for one whose feature is off, and matches nothing.
pub record Extractable {ℓ} (T : Type ℓ) : Type ℓ where
  pub enabled : Bool
  pub name : Text
  pub extract : BodyRequest → Result T Error

is_trace : Method → Bool
is_trace trace = true
is_trace m = false

module _ {ℓ} {T : Type ℓ} where
  matches_content_type : Extractable T → Text → Bool
  matches_content_type e content_type = if e.enabled then text_eq content_type e.name else false

  -- `ExtractOneOf::extract` of a tuple.
  unfoldable pub extract_one : List (Extractable T) → BodyRequest → Text → Result T Error
  unfolding matches_content_type
  extract_one [] req content_type = err unsupported_media_type
  extract_one (e ∷ es) req content_type =
      let rest = extract_one es req content_type in
      if matches_content_type e content_type then e.extract req else rest

  typed_request : List (Extractable T) → BodyRequest → Option Text → Result T Error
  unfolding extract_one
  typed_request es req none = err (missing_header (codes "Content-Type"))
  typed_request es req (some content_type) = extract_one es req content_type

  -- `OneOf::from_request`
  unfoldable pub one_of : List (Extractable T) → BodyRequest → Result T Error
  unfolding typed_request is_trace
  one_of es req =
      if is_trace req.method
      then err method_not_allowed
      else if not (is_some req.content_length || is_some req.transfer_encoding)
      then err (missing_header (codes "Content-Length or Transfer-Encoding"))
      else typed_request es req req.content_type

  -- `OneOfAny`, by the features and the extractions of the three types.
  unfoldable pub one_of_any :
      Bool → Bool → (json cbor form : BodyRequest → Result T Error) → List (Extractable T)
  one_of_any has_json has_cbor json cbor form =
      record { enabled = has_json; name = codes "application/json"; extract = json }
      ∷ record { enabled = has_cbor; name = codes "application/cbor"; extract = cbor }
      ∷ record { enabled = true; name = codes "application/x-www-form-urlencoded"; extract = form }
      ∷ []

-- A request with a body of a known size or transfer, that is no trace.
pub record IsSent (req : BodyRequest) : Type 0 where
  pub no_trace : req.method ≢ trace
  pub sized : (is_some req.content_length || is_some req.transfer_encoding) ≡ true

is_trace_lem : (m : Method) → m ≢ trace → is_trace m ≡ false
unfolding is_trace
is_trace_lem m h = ground arith

-- The type is off, or is not exactly the content type.
abbrev pub Misses {ℓ} : {T : Type ℓ} → Text → Extractable T → Type 0
Misses content_type e = (e.enabled ≡ false) ⊎ (content_type ≢ e.name)

module _ {ℓ} {T : Type ℓ} where
  matches_cases :
      (e : Extractable T) (content_type : Text)
      → ((e.enabled ≡ true)
          × (content_type ≡ e.name)
          × (matches_content_type e content_type ≡ true))
        ⊎ (Misses content_type e × (matches_content_type e content_type ≡ false))
  unfolding matches_content_type
  matches_cases e content_type = elim (Bool-cases e.enabled) [
    | inr off ↦ rw off (inr (inl refl, refl))
    | inl on ↦ rw on (elim (Bool-cases (text_eq content_type e.name)) [
      | inl same ↦ inl (refl, (text_eq_iff content_type e.name).0 same, same)
      | inr other ↦ inr (inr (λ h. ground (arith, (text_eq_iff content_type e.name).1 h)), other)
    ])
  ]

  -- The first type that matches is extracted, or none does.
  abbrev pub IsFirst : List (Extractable T) → Text → BodyRequest → Result T Error → Type ℓ
  IsFirst es content_type req r =
      ((before : List (Extractable T)) × (e : Extractable T) × (after : List (Extractable T)) × (es
          ≡ before ++ e ∷ after)
        × All (Misses content_type) before
        × (e.enabled ≡ true)
        × (content_type ≡ e.name)
        × (r ≡ e.extract req))
      ⊎ (All (Misses content_type) es × (r ≡ err unsupported_media_type))

  later :
      (e : Extractable T) (es : List (Extractable T)) (content_type : Text) (req : BodyRequest)
      (r : Result T Error)
      → Misses content_type e
      → IsFirst es content_type req r
      → IsFirst (e ∷ es) content_type req r
  later e es content_type req r h (inl (before, f, after, split, misses, on, same, result)) =
      inl (e ∷ before, f, after, ap (λ l. e ∷ l) split, (h, misses), on, same, result)
  later e es content_type req r h (inr (misses, result)) = inr ((h, misses), result)

  extract_one-IsFirst :
      (es : List (Extractable T)) (content_type : Text) (req : BodyRequest)
      → IsFirst es content_type req (extract_one es req content_type)
  unfolding extract_one
  extract_one-IsFirst [] content_type req = inr (tt, refl)
  extract_one-IsFirst (e ∷ es) content_type req = elim (matches_cases e content_type) [
    | inl (on, same, yes_it_is) ↦ rw yes_it_is (inl ([], e, es, refl, tt, on, same, refl))
    | inr (misses, no_it_is_not) ↦ rw no_it_is_not (
        later e es content_type req (extract_one es req content_type) misses
          (extract_one-IsFirst es content_type req))
  ]

  -- For a request that is no TRACE, has a content length or a transfer encoding, and has a content
  -- type, `OneOf` gives what the first enabled type with exactly this content type extracts, and
  -- Unsupported Media Type if there is none.
  pub one_of-IsFirst :
      (es : List (Extractable T)) (req : BodyRequest) (content_type : Text)
      → IsSent req
      → req.content_type ≡ some content_type
      → IsFirst es content_type req (one_of es req)
  unfolding one_of typed_request
  one_of-IsFirst es req content_type sent typed =
      let same : one_of es req ≡ extract_one es req content_type =
        rw (is_trace_lem req.method sent.no_trace, sent.sized) (ap (typed_request es req) typed) in
      subst (λ r. IsFirst es content_type req r) (sym same)
        (extract_one-IsFirst es content_type req)
