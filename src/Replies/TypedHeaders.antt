-- ===== src/Replies/TypedHeaders.antt =====
-- response.rs: `with_header`.
use ftl.Prelude.{◌≡◌, ◌≢◌, List, [], ◌∷◌}
use ftl.Http.{Text}
use ftl.Replies.{Maps, Responder, typed, tuple, into_response_parts, apply, into_response}

-- `with_header`, on the name of a typed header and the values that it encodes to.
unfoldable pub with_header {ℓ} : {H X : Type ℓ} → Text → List Text → Responder H X → Responder H X
with_header n vs r = tuple r (typed n vs ∷ [])

-- `get` lists the values of a name; `typed_insert` puts its values in place of those.
pub with_header-replaces {ℓ} :
    {H X : Type ℓ} (m : Maps H X) (get : H → Text → List Text)
    → ((h : H) (n : Text) (vs : List Text) → vs ≢ [] → get (m.typed_insert h n vs) n ≡ vs)
    → (r : Responder H X) (n : Text) (old new : List Text) → new ≢ []
    → get (into_response m (with_header n new (with_header n old r))).headers n ≡ new
unfolding into_response apply into_response_parts with_header
with_header-replaces m get law r n old new h =
    law (into_response m (with_header n old r)).headers n new h
