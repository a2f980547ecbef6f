-- ===== src/Replies/Disposition.antt =====
-- body/disposition.rs: a response with `Content-Disposition`. What `urlencoding::encode` gives is a
-- parameter, the text and whether it is owned, and so are the insertion of a header and the test of a
-- header's value; a panic is `none`.
use ftl.Prelude.{
  ℕ, Bool, true, false, ◌&&◌, Option, none, some, [], ◌∷◌, ◌++◌, leb, ltb, ◌≡◌, refl, All,
  All-append, if◌then◌else◌, arith, all,
}
use ftl.Http.{Text}
use ftl.Strings.{codes}
use ftl.Replies.{Response}

pub record Disposition {ℓ} (H X : Type ℓ) : Type ℓ where
  pub resp : Response H X
  pub attachment : Bool
  pub filename : Option Text

module _ {ℓ} {H X : Type ℓ} where
  unfoldable pub inline : Response H X → Disposition H X
  inline r = record { resp = r; attachment = false; filename = none }

  unfoldable pub attachment : Response H X → Disposition H X
  attachment r = record { resp = r; attachment = true; filename = none }

  unfoldable pub filename : Disposition H X → Text → Disposition H X
  filename d name = record d { filename = some name }

  unfoldable pub as_inline : Disposition H X → Disposition H X
  as_inline d = record d { attachment = false }

  unfoldable pub as_attachment : Disposition H X → Disposition H X
  as_attachment d = record d { attachment = true }

kind : Bool → Text
kind true = codes "attachment"
kind false = codes "inline"

-- `true` for a name that was encoded.
filename_key : Bool → Text
filename_key true = codes "; filename=*"
filename_key false = codes "; filename="

quoted : Text → Text
quoted name = b'"' ∷ name ++ b'"' ∷ []

unfoldable pub disposition_text : Bool → Text × Bool → Text
unfolding kind filename_key quoted
disposition_text a (name, owned) = kind a ++ filename_key owned ++ quoted name

module _ {ℓ} {H X : Type ℓ} (encode : Text → Text × Bool) (is_value : Text → Bool)
    (insert : H → Text → Text → H) where
  with_disposition : Response H X → Text → Response H X
  with_disposition r v = record r { headers = insert r.headers (codes "content-disposition") v }

  respond : Response H X → Bool → Option Text → Option (Response H X)
  unfolding with_disposition kind
  respond r a none = some (with_disposition r (kind a))
  respond r a (some name) =
      let v = disposition_text a (encode name) in
      if is_value v then some (with_disposition r v) else none

  unfoldable pub into_response : Disposition H X → Option (Response H X)
  unfolding respond
  into_response d = respond d.resp d.attachment d.filename

-- The characters that a header's value may have, controls and tabs aside.
unfoldable pub is_visible : ℕ → Bool
is_visible c = leb 32 c && ltb c 127

unfoldable pub IsVisible : ℕ → Type 0
IsVisible c = is_visible c ≡ true

IsVisible-of_all : (t : Text) → all is_visible t ≡ true → All IsVisible t
unfolding IsVisible
IsVisible-of_all [] h = tt
IsVisible-of_all (c ∷ t) h = (ground arith, IsVisible-of_all t (ground arith))

kind-IsVisible : (a : Bool) → All IsVisible (kind a)
unfolding kind is_visible
kind-IsVisible true = IsVisible-of_all (codes "attachment") refl
kind-IsVisible false = IsVisible-of_all (codes "inline") refl

filename_key-IsVisible : (owned : Bool) → All IsVisible (filename_key owned)
unfolding filename_key is_visible
filename_key-IsVisible true = IsVisible-of_all (codes "; filename=*") refl
filename_key-IsVisible false = IsVisible-of_all (codes "; filename=") refl

quoted-IsVisible : (name : Text) → All IsVisible name → All IsVisible (quoted name)
unfolding quoted IsVisible is_visible
quoted-IsVisible name h = (refl, All-append IsVisible name (b'"' ∷ []) h (refl, tt))

disposition_text-IsVisible :
    (a owned : Bool) (name : Text)
    → All IsVisible name
    → All IsVisible (disposition_text a (name, owned))
unfolding disposition_text
disposition_text-IsVisible a owned name h =
    All-append IsVisible (kind a ++ filename_key owned) (quoted name)
      (All-append IsVisible (kind a) (filename_key owned) (kind-IsVisible a)
        (filename_key-IsVisible owned))
      (quoted-IsVisible name h)

module _ {ℓ} {H X : Type ℓ} (encode : Text → Text × Bool) (is_value : Text → Bool)
    (insert : H → Text → Text → H) where
  respond-total :
      ((t : Text) → All IsVisible (encode t).0)
      → ((t : Text) → All IsVisible t → is_value t ≡ true)
      → (r : Response H X) (a : Bool) (name : Option Text)
      → (q : Response H X) × (respond encode is_value insert r a name ≡ some q)
  unfolding respond
  respond-total visible valid r a none = (_, refl)
  respond-total visible valid r a (some name) =
      let e = encode name in
      (
        with_disposition encode is_value insert r (disposition_text a e),
        rw (valid (disposition_text a e) (disposition_text-IsVisible a e.1 e.0 (visible name)))
            refl,
      )

  -- A disposition never panics: what is encoded is visible ASCII, which a header's value may be.
  pub into_response-total :
      ((t : Text) → All IsVisible (encode t).0)
      → ((t : Text) → All IsVisible t → is_value t ≡ true)
      → (d : Disposition H X)
      → (r : Response H X) × (into_response encode is_value insert d ≡ some r)
  unfolding into_response
  into_response-total visible valid d = respond-total visible valid d.resp d.attachment d.filename
