-- ===== src/Router/Matchers.antt =====
-- The routes of `matchit` as a list: its documented behaviour can be met.
use ftl.Prelude.{
  ℕ, ◌≡◌, ◌⊎◌, inl, inr, Option, none, some, List, [], ◌∷◌, if◌then◌else◌, is_some, Bool-cases,
  arith,
}
use ftl.Http.{Text}
use ftl.Strings.{text_eq}
use ftl.Router.{Matchit}

abbrev pub find_exact : Text → List (Text × ℕ) → Option (ℕ × Unit {0})
find_exact p [] = none
find_exact p ((q, j) ∷ t) = let rest = find_exact p t in if text_eq q p then some (j, tt) else rest

abbrev pub Holds : List (Text × ℕ) → ℕ → Type 0
Holds [] j = ⊥
Holds ((q, i) ∷ t) j = (j ≡ i) ⊎ Holds t j

abbrev pub insert_exact : Text → ℕ → List (Text × ℕ) → Option (List (Text × ℕ))
insert_exact p i t = if is_some (find_exact p t) then none else some ((p, i) ∷ t)

pub insert-Holds :
    (p : Text) (i j : ℕ) (t u : List (Text × ℕ))
    → insert_exact p i t ≡ some u
    → Holds u j
    → (j ≡ i) ⊎ Holds t j
insert-Holds p i j t u e h = elim (Bool-cases (is_some (find_exact p t))) [
  | inl old ↦ absurd (ground arith)
  | inr fresh ↦ let same : u ≡ (p, i) ∷ t = ground arith in rw same at h
]

pub find-Holds :
    (p : Text) (t : List (Text × ℕ)) (j : ℕ) (ps : Unit {0})
    → find_exact p t ≡ some (j, ps)
    → Holds t j
find-Holds p [] j ps e = cc
find-Holds p ((q, i) ∷ t) j ps e = elim (Bool-cases (text_eq q p)) [
  | inl same ↦ inl (ground arith)
  | inr other ↦ inr (find-Holds p t j ps (ground arith))
]

abbrev pub exact : Matchit (Unit {0})
exact = record {
  Tree = List (Text × ℕ);
  empty = [];
  insert = insert_exact;
  find = find_exact;
  Stored = Holds;
  stored-empty = λ j h. h;
  stored-insert = insert-Holds;
  stored-find = find-Holds;
}

-- The same with the same parameters at every match.
abbrev pub with_params : {P : Type 0} → P → Option (ℕ × Unit {0}) → Option (ℕ × P)
with_params ps none = none
with_params ps (some (j, _)) = some (j, ps)

pub with_params-some :
    {P : Type 0} (ps qs : P) (o : Option (ℕ × Unit {0})) (j : ℕ)
    → with_params ps o ≡ some (j, qs)
    → o ≡ some (j, tt)
with_params-some ps qs none j e = cc
with_params-some ps qs (some (i, _)) j e = ground arith

abbrev pub exact_with : {P : Type 0} → P → Matchit P
exact_with ps = record {
  Tree = List (Text × ℕ);
  empty = [];
  insert = insert_exact;
  find = λ p t. with_params ps (find_exact p t);
  Stored = Holds;
  stored-empty = λ j h. h;
  stored-insert = insert-Holds;
  stored-find = λ p t j qs e. find-Holds p t j tt (with_params-some ps qs (find_exact p t) j e);
}
