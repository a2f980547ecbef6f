-- ===== src/Replies.antt =====
-- response.rs, and `Header` of headers/mod.rs: what becomes a response. The header map and the
-- extensions are the `http` crate's, with the operations that the code calls; a typed header is its
-- name and the values that it encodes to.
use ftl.Prelude.{ℕ, Bool, List, [], ◌∷◌, ◌==◌, if◌then◌else◌}
use ftl.Http.{Text}
pub mod Statuses
pub mod TypedHeaders
pub mod Disposition

pub record Maps {ℓ} (H X : Type ℓ) : Type ℓ where
  pub no_headers : H
  pub is_empty : H → Bool
  pub extend : H → H → H
  pub append : H → Text → Text → H
  pub typed_insert : H → Text → List Text → H
  pub no_extensions : X
  pub merge : X → X → X

-- The types that are `IntoResponseParts`: an `Extension` is extensions of its own, and an `Option`
-- is `absent` or `present`.
pub data Part {ℓ} (H X : Type ℓ) : Type ℓ where
  unit : Part H X
  status : ℕ → Part H X
  extensions : X → Part H X
  absent : Part H X
  present : Part H X → Part H X
  header_map : H → Part H X
  header_list : List (Text × Text) → Part H X
  typed : Text → List Text → Part H X
  pair : Part H X → Part H X → Part H X

pub record Response {ℓ} (H X : Type ℓ) : Type ℓ where
  pub code : ℕ
  pub headers : H
  pub exts : X
  pub body : Text

-- The types that are `IntoResponse`; an `io::Error` and a value are their text.
pub data Responder {ℓ} (H X : Type ℓ) : Type ℓ where
  response : Response H X → Responder H X
  nothing : Responder H X
  status_code : ℕ → Responder H X
  text : Text → Responder H X
  io_error : Text → Responder H X
  headers_only : H → Responder H X
  list_only : List (Text × Text) → Responder H X
  tuple : Responder H X → List (Part H X) → Responder H X

module _ {ℓ} {H X : Type ℓ} (m : Maps H X) where
  append_all : H → List (Text × Text) → H
  append_all h [] = h
  append_all h ((n, v) ∷ l) = append_all (m.append h n v) l

  -- `into_response_parts`
  unfoldable pub into_response_parts : Part H X → Response H X → Response H X
  unfolding append_all
  into_response_parts unit r = r
  into_response_parts (status s) r = if r.code == 200 then record r { code = s } else r
  into_response_parts (extensions x) r = record r { exts = m.merge r.exts x }
  into_response_parts absent r = r
  into_response_parts (present p) r = into_response_parts p r
  into_response_parts (header_map h) r =
      if m.is_empty r.headers
      then record r { headers = h }
      else record r { headers = m.extend r.headers h }
  into_response_parts (header_list l) r = record r { headers = append_all r.headers l }
  into_response_parts (typed n vs) r = record r { headers = m.typed_insert r.headers n vs }
  into_response_parts (pair p q) r = into_response_parts q (into_response_parts p r)

  unfoldable pub apply : List (Part H X) → Response H X → Response H X
  unfolding into_response_parts
  apply [] r = r
  apply (p ∷ ps) r = apply ps (into_response_parts p r)

  -- `Response::new`, or `Response::default` for an empty body.
  unfoldable pub plain : Text → Response H X
  plain t = record { code = 200; headers = m.no_headers; exts = m.no_extensions; body = t }

  unfoldable pub into_response : Responder H X → Response H X
  unfolding apply plain append_all
  into_response (response r) = r
  into_response nothing = plain []
  into_response (status_code s) = record (plain []) { code = s }
  into_response (text t) = plain t
  into_response (io_error t) = apply (status 500 ∷ []) (plain t)
  into_response (headers_only h) = record (plain []) { headers = m.extend m.no_headers h }
  into_response (list_only l) = record (plain []) { headers = append_all m.no_headers l }
  into_response (tuple r ps) = apply ps (into_response r)
