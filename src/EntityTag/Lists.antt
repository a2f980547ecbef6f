-- ===== src/EntityTag/Lists.antt =====
-- headers/entity_tag.rs: the lists of `if-match` and `if-none-match`.
use ftl.Prelude.{
  ℕ, ◌≤◌, ◌<◌, if◌then◌else◌, Option, ◌≡◌, ◌∙◌, ap, sym, refl, Bool, true, false, some, List, [],
  ◌∷◌, ◌++◌, ok, All, All-append, Option-cases, inl, inr, arith,
}
use mathlib.Core.List.{append-nil, append_assoc}
use ftl.Http.{Text}
use ftl.Strings.{codes, is, split, trim, trim_start, trim_end, is_whitespace, is_empty}
use ftl.Strings.Pieces.{Avoids, split_snoc, split_of_Avoids}
use ftl.EntityTag.{
  EntityTag, to_string, from_str, or_fail, parse_values, push_tags, pieces, split_read, values_of,
  parse_etag_list, encode_etag_list,
}
use ftl.EntityTag.Print.{IsTag, from_str_trimmed, from_str-to_string, trim-to_string}

-- A byte that a header value may hold and that `to_str` reads.
pub record IsVisible (c : ℕ) : Type 0 where
  pub printed : 32 ≤ c
  pub plain : c < 127

-- A tag that a list can hold: it has no comma, and nothing that a header cannot hold.
pub record IsListed (e : EntityTag) : Type 0 where
  pub valid : IsTag e
  pub single : Avoids (is b',') e.tag
  pub visible : All IsVisible e.tag

to_string-Avoids :
    (weak : Bool) (tag : Text)
    → Avoids (is b',') tag
    → Avoids (is b',') (to_string (record { weak = weak; tag = tag }))
unfolding to_string
to_string-Avoids true tag h =
    (refl, (refl, (refl, All-append (λ c. is b',' c ≡ false) tag (b'"' ∷ []) h (refl, tt))))
to_string-Avoids false tag h =
    (refl, All-append (λ c. is b',' c ≡ false) tag (b'"' ∷ []) h (refl, tt))

-- A list's separator leaves a space in front of the tag.
spaced :
    (weak : Bool) (tag : Text)
    → trim (b' ' ∷ to_string (record { weak = weak; tag = tag }))
      ≡ trim (to_string (record { weak = weak; tag = tag }))
unfolding trim trim_start trim_end is_whitespace to_string
spaced true tag = refl
spaced false tag = refl

parse_values-append :
    (xs ys : List Text) (es fs : List EntityTag)
    → parse_values xs ≡ some es
    → parse_values ys ≡ some fs
    → parse_values (xs ++ ys) ≡ some (es ++ fs)
unfolding parse_values
parse_values-append [] ys es fs h k = ground arith
parse_values-append (x ∷ xs) ys es fs h k = elim (Option-cases (or_fail (from_str x))) [
  | inl e ↦ absurd (ground arith)
  | inr (a, e) ↦ elim (Option-cases (parse_values xs)) [
    | inl f ↦ absurd (ground arith)
    | inr (bs, f) ↦ ground (arith, parse_values-append xs ys bs fs f k)
  ]
]

parse_single :
    (s : Text) (e : EntityTag) → from_str s ≡ ok e → parse_values (s ∷ []) ≡ some (e ∷ [])
unfolding parse_values
parse_single s e h = rw h

spaced_tag : (e : EntityTag) → IsTag e → from_str (b' ' ∷ to_string e) ≡ ok e
spaced_tag e t =
    from_str_trimmed (b' ' ∷ to_string e) e t (spaced e.weak e.tag ∙ trim-to_string e.weak e.tag)

written : (s : Text) (e : EntityTag) → is_empty (s ++ to_string e) ≡ false
unfolding to_string
written [] e = ground arith
written (c ∷ s) e = refl

comma_space : All IsVisible (codes ", ")
comma_space = (
  record { printed = omega arith; plain = omega arith },
  (record { printed = omega arith; plain = omega arith }, tt),
)

to_string-IsVisible :
    (weak : Bool) (tag : Text)
    → All IsVisible tag
    → All IsVisible (to_string (record { weak = weak; tag = tag }))
unfolding to_string
to_string-IsVisible weak tag h = quoted weak (All-append IsVisible tag (b'"' ∷ []) h (mark, tt))
  where
    mark : IsVisible b'"'
    mark = record { printed = omega arith; plain = omega arith }

    quoted :
        (weak : Bool)
        → All IsVisible (tag ++ b'"' ∷ [])
        → All IsVisible (to_string (record { weak = weak; tag = tag }))
    quoted true s = (
      record { printed = omega arith; plain = omega arith },
      (record { printed = omega arith; plain = omega arith }, (mark, s)),
    )
    quoted false s = (mark, s)

push_tags-IsVisible :
    (s : Text) (es : List EntityTag)
    → All IsVisible s
    → All IsListed es
    → All IsVisible (push_tags s es)
unfolding push_tags
push_tags-IsVisible s [] h ts = h
push_tags-IsVisible s (e ∷ es) h (t, ts) =
    push_tags-IsVisible ((if is_empty s then [] else s ++ codes ", ") ++ to_string e) es
      (All-append IsVisible (if is_empty s then [] else s ++ codes ", ") (to_string e)
        (separated (is_empty s)) (to_string-IsVisible e.weak e.tag t.visible))
      ts
  where
    separated : (b : Bool) → All IsVisible (if b then [] else s ++ codes ", ")
    separated true = tt
    separated false = All-append IsVisible s (codes ", ") h comma_space

-- The text written so far is read as the tags so far; then so is what is appended.
push_tags-parse :
    (s : Text) (seen es : List EntityTag)
    → is_empty s ≡ false
    → parse_values (split (is b',') s) ≡ some seen
    → All IsListed es
    → parse_values (split (is b',') (push_tags s es)) ≡ some (seen ++ es)
unfolding push_tags
push_tags-parse s seen [] w h k = h ∙ ap some (sym (append-nil seen))
push_tags-parse s seen (e ∷ es) w h (t, ts) = rw w (
    push_tags-parse ((s ++ codes ", ") ++ to_string e) (seen ++ e ∷ []) es
      (written (s ++ codes ", ") e)
      (rw regroup (
        rw cut (
          parse_values-append (split (is b',') s) ((b' ' ∷ to_string e) ∷ []) seen (e ∷ []) h
            (parse_single (b' ' ∷ to_string e) e (spaced_tag e t.valid)))))
      ts
    ∙ ap some (append_assoc seen (e ∷ []) es))
  where
    regroup : (s ++ codes ", ") ++ to_string e ≡ s ++ b',' ∷ (b' ' ∷ to_string e)
    regroup = append_assoc s (codes ", ") (to_string e)

    cut :
        split (is b',') (s ++ b',' ∷ (b' ' ∷ to_string e))
        ≡ split (is b',') s ++ (b' ' ∷ to_string e) ∷ []
    cut =
        split_snoc (is b',') s (b' ' ∷ to_string e) b',' refl
          (refl, to_string-Avoids e.weak e.tag t.single)

texts_read :
    (e : EntityTag) (es : List EntityTag)
    → All IsListed (e ∷ es)
    → parse_values (split (is b',') (push_tags [] (e ∷ es))) ≡ some (e ∷ es)
unfolding push_tags
texts_read e es (t, ts) =
    push_tags-parse (to_string e) (e ∷ []) es (written [] e)
      (rw (split_of_Avoids (is b',') (to_string e) (to_string-Avoids e.weak e.tag t.single))
        (parse_single (to_string e) e (from_str-to_string e t.valid)))
      ts

module _ {ℓ} {Value : Type ℓ} (try_from : Text → Option Value) (to_str : Value → Option Text) where
  encoded_value :
      (es : List EntityTag) (v : Value)
      → try_from (push_tags [] es) ≡ some v
      → encode_etag_list try_from es ≡ v ∷ []
  unfolding encode_etag_list
  encoded_value es v h = ap values_of h

  pieces_value :
      (v : Value) (s : Text) → to_str v ≡ some s → pieces to_str (v ∷ []) ≡ split (is b',') s
  unfolding pieces
  pieces_value v s h = ap (λ o. split_read o ++ []) h ∙ append-nil (split (is b',') s)

-- A list of one or more entity tags is read back in order from what the list encoder writes, in one
-- value, when each tag is of at most 62 bytes, all of them visible ASCII or spaces, and has no
-- comma, and when a header value can be made of any text of such bytes and reads as that text.
pub parse-encode_etag_list {ℓ} :
    {Value : Type ℓ} (try_from : Text → Option Value) (to_str : Value → Option Text)
    → ((t : Text) → All IsVisible t → (v : Value) × (try_from t ≡ some v) × (to_str v ≡ some t))
    → (e : EntityTag) (es : List EntityTag) → All IsListed (e ∷ es)
    → ((v : Value) × (encode_etag_list try_from (e ∷ es) ≡ v ∷ []))
      × (parse_etag_list to_str (encode_etag_list try_from (e ∷ es)) ≡ some (e ∷ es))
unfolding parse_etag_list
parse-encode_etag_list try_from to_str law e es listed =
    let (v, made, shows) =
      law (push_tags [] (e ∷ es)) (push_tags-IsVisible [] (e ∷ es) tt listed) in
    let one = encoded_value try_from to_str (e ∷ es) v made in
    (
      (v, one),
      ap (λ vs. parse_values (pieces to_str vs)) one
          ∙ ap parse_values (pieces_value try_from to_str v (push_tags [] (e ∷ es)) shows)
          ∙ texts_read e es listed,
    )
