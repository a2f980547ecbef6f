-- ===== src/Params/Nested.antt =====
-- params.rs and extract/path.rs: a request that passes several routers.
use mathlib.Core.List.{append-nil, append_assoc}
use ftl.Prelude.{
  Option, none, some, List, [], ◌∷◌, ◌++◌, ◌≡◌, ◌⊎◌, inl, inr, refl, ap, ◌∙◌, Result, ok, err,
}
use ftl.Http.{Text}
use ftl.Params.{
  UrlParams, params, invalid_utf8, store, add, keep, collect, insert_url_params, insert_all,
}
use ftl.Params.Decoded.{Decodes, FailsAt, collect_cases}

-- The parameters of all matches, in order.
abbrev pub join {ℓ} : {A : Type ℓ} → List (List A) → List A
join [] = []
join (xs ∷ xss) = xs ++ join xss

-- What is kept of all parameters together: all of them, or the first key that fails.
abbrev of_collected : Result (List (Text × Text)) Text → UrlParams
of_collected (ok ps) = params ps
of_collected (err k) = invalid_utf8 k

abbrev in_front : List (Text × Text) → Result (List (Text × Text)) Text → UrlParams
in_front current (ok ps) = params (current ++ ps)
in_front current (err k) = invalid_utf8 k

both :
    Result (List (Text × Text)) Text
    → Result (List (Text × Text)) Text
    → Result (List (Text × Text)) Text
both (err k) r = err k
both (ok ps) (err k) = err k
both (ok ps) (ok qs) = ok (ps ++ qs)

both-add :
    (k : Text) (o : Option Text) (a b : Result (List (Text × Text)) Text)
    → add k o (both a b) ≡ both (add k o a) b
unfolding both add keep
both-add k none a b = refl
both-add k (some v) (err e) b = refl
both-add k (some v) (ok ps) (err e) = refl
both-add k (some v) (ok ps) (ok qs) = refl

both-nil : (r : Result (List (Text × Text)) Text) → both (ok []) r ≡ r
unfolding both
both-nil (ok ps) = refl
both-nil (err k) = refl

collect-append :
    (decode : Text → Option Text) (ps qs : List (Text × Text))
    → collect decode (ps ++ qs) ≡ both (collect decode ps) (collect decode qs)
unfolding collect
collect-append decode [] qs = rw (both-nil (collect decode qs))
collect-append decode ((k, v) ∷ ps) qs =
    ap (add k (decode v)) (collect-append decode ps qs)
    ∙ both-add k (decode v) (collect decode ps) (collect decode qs)

insert_all_invalid :
    (decode : Text → Option Text) (k : Text) (pss : List (List (Text × Text)))
    → insert_all decode (some (invalid_utf8 k)) pss ≡ some (invalid_utf8 k)
unfolding insert_all
insert_all_invalid decode k [] = refl
insert_all_invalid decode k (ps ∷ pss) = insert_all_invalid decode k pss

in_front-append :
    (current ps : List (Text × Text)) (r : Result (List (Text × Text)) Text)
    → in_front (current ++ ps) r ≡ in_front current (both (ok ps) r)
unfolding both
in_front-append current ps (err k) = refl
in_front-append current ps (ok qs) = ap params (append_assoc current ps qs)

insert_all_params :
    (decode : Text → Option Text) (pss : List (List (Text × Text))) (current : List (Text × Text))
    → insert_all decode (some (params current)) pss
      ≡ some (in_front current (collect decode (join pss)))
unfolding insert_all both
insert_all_params decode [] current = unfold collect in rw append-nil
insert_all_params decode (ps ∷ pss) current =
    rw (collect-append decode ps (join pss))
      (next (collect decode ps) (insert_all_params decode pss))
  where
    next :
        (r : Result (List (Text × Text)) Text)
        → ((c : List (Text × Text))
            → insert_all decode (some (params c)) pss
              ≡ some (in_front c (collect decode (join pss))))
        → insert_all decode (store (some (params current)) r) pss
          ≡ some (in_front current (both r (collect decode (join pss))))
    next (err k) h = insert_all_invalid decode k pss
    next (ok qs) h =
        h (current ++ qs) ∙ ap some (in_front-append current qs (collect decode (join pss)))

in_front-nil : (r : Result (List (Text × Text)) Text) → in_front [] r ≡ of_collected r
in_front-nil (ok ps) = refl
in_front-nil (err k) = refl

store-none : (r : Result (List (Text × Text)) Text) → store none r ≡ store (some (params [])) r
unfolding store
store-none (ok ps) = refl
store-none (err k) = refl

insert_all-collected :
    (decode : Text → Option Text) (ps : List (Text × Text)) (pss : List (List (Text × Text)))
    → insert_all decode none (ps ∷ pss) ≡ some (of_collected (collect decode (join (ps ∷ pss))))
unfolding insert_all insert_url_params
insert_all-collected decode ps pss = rw (store-none (collect decode ps)) (
    insert_all_params decode (ps ∷ pss) []
    ∙ ap some (in_front-nil (collect decode (ps ++ join pss))))

-- A request that comes without parameters and passes one or more routers holds the parameters of
-- all its matches in order, each with its key and its decoded value, if every value is decoded;
-- otherwise it holds the key of the first value, in that order, that is not.
pub insert_all-join :
    (decode : Text → Option Text) (ps : List (Text × Text)) (pss : List (List (Text × Text)))
    → ((qs : List (Text × Text)) × Decodes decode (join (ps ∷ pss)) qs
        × (insert_all decode none (ps ∷ pss) ≡ some (params qs)))
      ⊎ ((k : Text) × FailsAt decode (join (ps ∷ pss)) k
          × (insert_all decode none (ps ∷ pss) ≡ some (invalid_utf8 k)))
insert_all-join decode ps pss =
    let all = insert_all-collected decode ps pss in
    elim (collect_cases decode (join (ps ∷ pss))) [
      | inl (qs, d, e) ↦ inl (qs, d, all ∙ ap (λ r. some (of_collected r)) e)
      | inr (k, f, e) ↦ inr (k, f, all ∙ ap (λ r. some (of_collected r)) e)
    ]
