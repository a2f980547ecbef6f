-- ===== src/Replies/Statuses.antt =====
-- response.rs: the status of what a tuple becomes.
use ftl.Prelude.{ℕ, ◌≡◌, refl, List, [], ◌∷◌, ◌++◌, ◌==◌, if◌then◌else◌, ◌∙◌, ap, sym, arith}
use ftl.Replies.{
  Maps, Part, unit, status, extensions, absent, present, header_map, header_list, typed, pair,
  Response, Responder, response, nothing, status_code, text, io_error, headers_only, list_only,
  tuple, into_response_parts, apply, plain, into_response,
}

-- The first status that is not 200, from the left.
unfoldable pub first_set : ℕ → List ℕ → ℕ
first_set c [] = c
first_set c (s ∷ ss) = first_set (if c == 200 then s else c) ss

-- The statuses that stand in a part, in a tuple's parts and in a responder, left to right.
unfoldable pub statuses {ℓ} : {H X : Type ℓ} → Part H X → List ℕ
statuses (status s) = s ∷ []
statuses (pair p q) = statuses p ++ statuses q
statuses unit = []
statuses (extensions x) = []
statuses absent = []
statuses (present p) = statuses p
statuses (header_map h) = []
statuses (header_list l) = []
statuses (typed n vs) = []

unfoldable pub all_statuses {ℓ} : {H X : Type ℓ} → List (Part H X) → List ℕ
unfolding statuses
all_statuses [] = []
all_statuses (p ∷ ps) = statuses p ++ all_statuses ps

unfoldable pub written {ℓ} : {H X : Type ℓ} → Responder H X → List ℕ
unfolding all_statuses
written (response r) = r.code ∷ []
written (status_code s) = s ∷ []
written (io_error t) = 500 ∷ []
written (tuple r ps) = written r ++ all_statuses ps
written nothing = []
written (text t) = []
written (headers_only h) = []
written (list_only l) = []

first_set-append : (c : ℕ) (ss ts : List ℕ) → first_set c (ss ++ ts) ≡ first_set (first_set c ss) ts
unfolding first_set
first_set-append c [] ts = refl
first_set-append c (s ∷ ss) ts = first_set-append (if c == 200 then s else c) ss ts

module _ {ℓ} {H X : Type ℓ} (m : Maps H X) where
  part-code :
      (p : Part H X) (r : Response H X)
      → (into_response_parts m p r).code ≡ first_set r.code (statuses p)
  unfolding into_response_parts first_set statuses
  part-code unit r = refl
  part-code (status s) r = ground arith
  part-code (extensions x) r = refl
  part-code absent r = refl
  part-code (present p) r = part-code p r
  part-code (header_map h) r = ground arith
  part-code (header_list l) r = refl
  part-code (typed n vs) r = refl
  part-code (pair p q) r =
      part-code q (into_response_parts m p r)
      ∙ ap (λ (c : ℕ). first_set c (statuses q)) (part-code p r)
      ∙ sym (first_set-append r.code (statuses p) (statuses q))

  apply-code :
      (ps : List (Part H X)) (r : Response H X)
      → (apply m ps r).code ≡ first_set r.code (all_statuses ps)
  unfolding apply first_set all_statuses
  apply-code [] r = refl
  apply-code (p ∷ ps) r =
      apply-code ps (into_response_parts m p r)
      ∙ ap (λ (c : ℕ). first_set c (all_statuses ps)) (part-code p r)
      ∙ sym (first_set-append r.code (statuses p) (all_statuses ps))

  -- The status of a response made of a responder and its parts is the first status among them, from
  -- the left, that is not 200, and 200 if there is none.
  pub into_response-code :
      (r : Responder H X) → (into_response m r).code ≡ first_set 200 (written r)
  unfolding into_response written first_set plain apply into_response_parts
  into_response-code (response r) = refl
  into_response-code nothing = refl
  into_response-code (status_code s) = refl
  into_response-code (text t) = refl
  into_response-code (io_error t) = refl
  into_response-code (headers_only h) = refl
  into_response-code (list_only l) = refl
  into_response-code (tuple r ps) =
      apply-code ps (into_response m r)
      ∙ ap (λ (c : ℕ). first_set c (all_statuses ps)) (into_response-code r)
      ∙ sym (first_set-append 200 (written r) (all_statuses ps))
