-- ===== src/Fs/Conditions.antt =====
-- fs.rs: the answers of `Conditionals::check`.
use ftl.Prelude.{ℕ, ◌≡◌, ◌↔◌, ◌⊎◌, Bool, true, false, Option, none, some, List, any, arith}
use ftl.EntityTag.{EntityTag, weak_eq}
use ftl.Fs.{
  Conditionals, Cond, no_body, not_modified, precondition_failed, check, check_none_match,
  check_unmodified, check_since, check_range,
}

-- The client has this version by its tag.
abbrev pub TagMatches : Option (List EntityTag) → EntityTag → Type 0
TagMatches none etag = ⊥
TagMatches (some tags) etag = any (λ e. weak_eq e etag) tags ≡ true

-- The file was written after the date, or it is not known when.
abbrev pub IsChanged : {D T : Type 0} → (D → T → Bool) → Option D → Option T → Type 0
IsChanged precondition_passes none last = ⊥
IsChanged precondition_passes (some d) none = Unit
IsChanged precondition_passes (some d) (some t) = precondition_passes d t ≡ false

-- The file was not written since the date.
abbrev pub IsUnchanged : {D T : Type 0} → (D → T → Bool) → Option D → Option T → Type 0
IsUnchanged is_modified none last = ⊥
IsUnchanged is_modified (some d) none = ⊥
IsUnchanged is_modified (some d) (some t) = is_modified d t ≡ false

module _ {D I R T : Type 0} (precondition_passes : D → T → Bool) (is_modified : D → T → Bool)
    (range_modified : I → Option T → Bool) where
  abbrev pub Decide : Conditionals D I R → Option T → EntityTag → Cond R
  Decide c last etag = check precondition_passes is_modified range_modified c last etag

  none_match_iff :
      (tags : Option (List EntityTag)) (rest : Cond R) (etag : EntityTag) (code : ℕ)
      → (check_none_match precondition_passes is_modified range_modified tags rest etag
          ≡ no_body code)
        ↔ ((TagMatches tags etag × (code ≡ not_modified))
            ⊎ ((¬ TagMatches tags etag) × (rest ≡ no_body code)))
  unfolding check_none_match
  none_match_iff none rest etag code = ground arith
  none_match_iff (some tags) rest etag code = ground arith

  unmodified_iff :
      (d : Option D) (rest : Cond R) (last : Option T) (code : ℕ)
      → (check_unmodified precondition_passes is_modified range_modified d rest last ≡ no_body code)
        ↔ ((IsChanged precondition_passes d last × (code ≡ precondition_failed))
            ⊎ ((¬ IsChanged precondition_passes d last) × (rest ≡ no_body code)))
  unfolding check_unmodified
  unmodified_iff none rest last code = ground arith
  unmodified_iff (some d) rest none code = ground arith
  unmodified_iff (some d) rest (some t) code = ground arith

  since_iff :
      (d : Option D) (i : Option I) (range : Option R) (last : Option T) (code : ℕ)
      → (check_since precondition_passes is_modified range_modified d
            (check_range precondition_passes is_modified range_modified i range last)
            last
          ≡ no_body code)
        ↔ (IsUnchanged is_modified d last × (code ≡ not_modified))
  unfolding check_since check_range
  since_iff none none range last code = ground arith
  since_iff none (some i) range last code = ground arith
  since_iff (some d) none range none code = ground arith
  since_iff (some d) (some i) range none code = ground arith
  since_iff (some d) none range (some t) code = ground arith
  since_iff (some d) (some i) range (some t) code = ground arith

  -- `check` answers 304 exactly when a tag of `If-None-Match` matches weakly, or when none does,
  -- the file is known to be written no later than `If-Unmodified-Since` (if that is given), and
  -- `If-Modified-Since` is given and the file is known not to be written since.
  pub check-not_modified_iff :
      (c : Conditionals D I R) (last : Option T) (etag : EntityTag)
      → (Decide c last etag ≡ no_body not_modified) ↔ (
          TagMatches c.if_none_match etag
          ⊎ ((¬ TagMatches c.if_none_match etag)
              × (¬ IsChanged precondition_passes c.if_unmodified_since last)
              × IsUnchanged is_modified c.if_modified_since last))
  unfolding check
  check-not_modified_iff c last etag =
      let since = since_iff c.if_modified_since c.if_range c.range last not_modified in
      let rest =
        check_since precondition_passes is_modified range_modified c.if_modified_since
          (check_range precondition_passes is_modified range_modified c.if_range c.range last)
          last in
      let unmodified = unmodified_iff c.if_unmodified_since rest last not_modified in
      let none_match =
        none_match_iff c.if_none_match
          (check_unmodified precondition_passes is_modified range_modified c.if_unmodified_since
            rest last)
          etag not_modified in
      ground arith

  -- `check` answers 412 exactly when no tag of `If-None-Match` matches weakly, `If-Unmodified-
  -- Since` is given, and the file's modification time is unknown or does not pass it.
  pub check-precondition_failed_iff :
      (c : Conditionals D I R) (last : Option T) (etag : EntityTag)
      → (Decide c last etag ≡ no_body precondition_failed) ↔ (
          (¬ TagMatches c.if_none_match etag)
          × IsChanged precondition_passes c.if_unmodified_since last)
  unfolding check
  check-precondition_failed_iff c last etag =
      let since = since_iff c.if_modified_since c.if_range c.range last precondition_failed in
      let rest =
        check_since precondition_passes is_modified range_modified c.if_modified_since
          (check_range precondition_passes is_modified range_modified c.if_range c.range last)
          last in
      let unmodified = unmodified_iff c.if_unmodified_since rest last precondition_failed in
      let none_match =
        none_match_iff c.if_none_match
          (check_unmodified precondition_passes is_modified range_modified c.if_unmodified_since
            rest last)
          etag precondition_failed in
      ground arith
