-- ===== src/Strings/Pieces.antt =====
-- The laws of splitting and trimming that the components share.
use ftl.Prelude.{
  ℕ, ◌≡◌, ◌≢◌, ◌↔◌, refl, Bool, true, false, ◌&&◌, List, [], ◌∷◌, ◌++◌, All, all, not, arith,
  Bool-cases, inl, inr, some, none,
}
use ftl.Http.{Text}
use ftl.Strings.{
  splitn2, text_eq, split, onto_first, is, is_whitespace, is_empty, trim, trim_start, trim_end,
}

-- No code point of the text is a separator.
abbrev pub Avoids : (ℕ → Bool) → Text → Type 0
Avoids p s = All (λ c. p c ≡ false) s

-- To decide it for a given text.
pub Avoids_of_all : (p : ℕ → Bool) (s : Text) → all (λ c. not (p c)) s ≡ true → Avoids p s
Avoids_of_all p [] h = tt
Avoids_of_all p (c ∷ s) h = (ground arith, Avoids_of_all p s (ground arith))

pub text_eq_iff : (s t : Text) → (text_eq s t ≡ true) ↔ (s ≡ t)
unfolding text_eq
text_eq_iff [] [] = ground arith
text_eq_iff [] (b ∷ t) = ground arith
text_eq_iff (a ∷ s) [] = ground arith
text_eq_iff (a ∷ s) (b ∷ t) = ground (arith, text_eq_iff s t)

onto_first-Avoids :
    (p : ℕ → Bool) (c : ℕ) (xs : List Text)
    → p c ≡ false
    → All (Avoids p) xs
    → All (Avoids p) (onto_first c xs)
onto_first-Avoids p c [] h k = ((h, tt), tt)
onto_first-Avoids p c (x ∷ xs) h (k, ks) = ((h, k), ks)

pub split-Avoids : (p : ℕ → Bool) (s : Text) → All (Avoids p) (split p s)
unfolding split
split-Avoids p [] = (tt, tt)
split-Avoids p (c ∷ s) = elim (Bool-cases (p c)) [
  | inl e ↦ rw e (tt, split-Avoids p s)
  | inr e ↦ rw e (onto_first-Avoids p c (split p s) e (split-Avoids p s))
]

-- A text with no separator is its own only piece.
pub split_of_Avoids : (p : ℕ → Bool) (s : Text) → Avoids p s → split p s ≡ s ∷ []
unfolding split
split_of_Avoids p [] h = refl
split_of_Avoids p (c ∷ s) (h, k) = rw (h, split_of_Avoids p s k)

-- The first separator ends the first piece.
pub split-append :
    (p : ℕ → Bool) (s t : Text) (c : ℕ)
    → Avoids p s
    → p c ≡ true
    → split p (s ++ c ∷ t) ≡ s ∷ split p t
unfolding split
split-append p [] t c h k = rw k
split-append p (d ∷ s) t c (h, hs) k = rw (h, split-append p s t c hs k)

trim_start-Avoids : (p : ℕ → Bool) (s : Text) → Avoids p s → Avoids p (trim_start s)
unfolding trim_start
trim_start-Avoids p [] h = tt
trim_start-Avoids p (c ∷ s) (h, k) = elim (Bool-cases (is_whitespace c)) [
  | inl e ↦ rw e (trim_start-Avoids p s k)
  | inr e ↦ rw e (h, k)
]

trim_end-Avoids : (p : ℕ → Bool) (s : Text) → Avoids p s → Avoids p (trim_end s)
unfolding trim_end
trim_end-Avoids p [] h = tt
trim_end-Avoids p (c ∷ s) (h, k) = elim (Bool-cases (is_whitespace c && is_empty (trim_end s))) [
  | inl e ↦ rw e tt
  | inr e ↦ rw e (h, trim_end-Avoids p s k)
]

pub trim-Avoids : (p : ℕ → Bool) (s : Text) → Avoids p s → Avoids p (trim s)
unfolding trim
trim-Avoids p s h = trim_start-Avoids p (trim_end s) (trim_end-Avoids p s h)

-- A text with no white space is its own trim.
abbrev pub IsUnspaced : Text → Type 0
IsUnspaced s = All (λ c. is_whitespace c ≡ false) s

trim_end_of_IsUnspaced : (s : Text) → IsUnspaced s → trim_end s ≡ s
unfolding trim_end
trim_end_of_IsUnspaced [] h = refl
trim_end_of_IsUnspaced (c ∷ s) (h, k) = rw (h, trim_end_of_IsUnspaced s k)

trim_start_of_IsUnspaced : (s : Text) → IsUnspaced s → trim_start s ≡ s
unfolding trim_start
trim_start_of_IsUnspaced [] h = refl
trim_start_of_IsUnspaced (c ∷ s) (h, k) = rw h

pub trim_of_IsUnspaced : (s : Text) → IsUnspaced s → trim s ≡ s
unfolding trim
trim_of_IsUnspaced s h = rw (trim_end_of_IsUnspaced s h) (trim_start_of_IsUnspaced s h)

onto_first-append :
    (c : ℕ) (xs ys : List Text) → xs ≢ [] → onto_first c (xs ++ ys) ≡ onto_first c xs ++ ys
onto_first-append c [] ys h = absurd (h refl)
onto_first-append c (x ∷ xs) ys h = refl

split-ne-nil : (p : ℕ → Bool) (s : Text) → split p s ≢ []
unfolding split
split-ne-nil p [] e = cc
split-ne-nil p (c ∷ s) e = ground (arith, onto_first-ne-nil c (split p s))
  where
    onto_first-ne-nil : (c : ℕ) (xs : List Text) → onto_first c xs ≢ []
    onto_first-ne-nil c [] e = cc
    onto_first-ne-nil c (x ∷ xs) e = cc

-- What stands behind the last separator is the last piece.
pub split_snoc :
    (p : ℕ → Bool) (s t : Text) (c : ℕ)
    → p c ≡ true
    → Avoids p t
    → split p (s ++ c ∷ t) ≡ split p s ++ t ∷ []
unfolding split
split_snoc p [] t c h k = rw (h, split_of_Avoids p t k)
split_snoc p (d ∷ s) t c h k = elim (Bool-cases (p d)) [
  | inl e ↦ rw (e, split_snoc p s t c h k)
  | inr e ↦
      rw (e, split_snoc p s t c h k) (onto_first-append d (split p s) (t ∷ []) (split-ne-nil p s))
]

pub All-and_left {ℓ} :
    {A : Type ℓ} (P Q : A → Type 0) (s : List A) → All (λ c. P c × Q c) s → All P s
All-and_left P Q [] h = tt
All-and_left P Q (c ∷ s) ((h, _), k) = (h, All-and_left P Q s k)

pub splitn2_at : (d : ℕ) (s t : Text) → Avoids (is d) s → splitn2 d (s ++ d ∷ t) ≡ (s, some t)
unfolding splitn2
splitn2_at d [] t h = ground arith
splitn2_at d (c ∷ s) t (h, k) = rw (h, splitn2_at d s t k)

-- A text with no separator is not cut.
pub splitn2_of_Avoids : (d : ℕ) (s : Text) → Avoids (is d) s → splitn2 d s ≡ (s, none)
unfolding splitn2
splitn2_of_Avoids d [] h = refl
splitn2_of_Avoids d (c ∷ s) (h, k) = rw (h, splitn2_of_Avoids d s k)

-- A text that ends in no white space is left as it is at its end.
pub trim_end_snoc :
    (s : Text) (c : ℕ) → is_whitespace c ≡ false → trim_end (s ++ c ∷ []) ≡ s ++ c ∷ []
unfolding trim_end
trim_end_snoc [] c h = rw h
trim_end_snoc (d ∷ s) c h = ground (arith, trim_end_snoc s c h, snoc_written s c)
  where
    snoc_written : (s : Text) (c : ℕ) → is_empty (s ++ c ∷ []) ≡ false
    snoc_written [] c = refl
    snoc_written (d ∷ s) c = refl
