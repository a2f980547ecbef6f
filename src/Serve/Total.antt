-- ===== src/Serve/Total.antt =====
-- fs.rs: what `file_reply` can panic on.
use ftl.Prelude.{
  ℕ, ◌-◌, ◌≡◌, ◌≢◌, ◌⊎◌, inl, inr, refl, Bool, true, Option, none, some, ok, ◌>>=◌, Result-cases,
  Option-cases, sym, false, ◌&&◌, arith,
}
use mathlib.Core.Path.{subst}
use ftl.Prelude.Words.{u64_max}
use ftl.Http.{Text}
use ftl.Encoding.{identity, AcceptEncoding}
use ftl.EntityTag.{EntityTag, from_file}
use ftl.Fs.{Bound, included, excluded, overflows, bytes_range, Cond, no_body, with_body, check}
use ftl.Fs.Overflows.{overflows-eq-false}
use ftl.Serve.{
  Panics, Meta, Cache, Request, Reply, accepts_of, dated, on_range, on_cond, with_date, with_meta,
  with_file, file_reply,
}
use ftl.Serve.Replies.{serve-total, check-range}
use ftl.Serve.Whole.{verdict, Describes}

and_false : (b : Bool) → (b && false) ≡ false
and_false true = refl
and_false false = refl

whole_range :
    {R : Type 0} (range : Option R) (satisfiable : R → ℕ → Option (Bound × Bound)) (len : ℕ)
    {start end : ℕ}
    → range ≡ none
    → verdict range satisfiable len ≡ ok (start, end)
    → end - start ≡ len
unfolding bytes_range
whole_range range satisfiable len h e = ground arith

module _ {D I R F T : Type 0} (precondition_passes : D → T → Bool) (is_modified : D → T → Bool)
    (range_modified : I → Option T → Bool) (satisfiable : R → ℕ → Option (Bound × Bound))
    (age : T → Option (ℕ × ℕ)) (panics : Panics T) (cache : Cache F T)
    (mime : Text → Option Text) where
  abbrev Reply_to : Request D I R → Text → Option (Meta T) → Option (Reply T)
  Reply_to req path given =
      file_reply precondition_passes is_modified range_modified satisfiable age panics cache mime
        req path given

  abbrev Cond_of : Request D I R → Text → F → Meta T → EntityTag → Cond R → Option (Reply T)
  Cond_of = on_cond precondition_passes is_modified range_modified satisfiable age panics cache mime

  abbrev Range_to :
      Request D I R → Text → F → Meta T → EntityTag → Option (Bound × Bound) → Option (Reply T)
  Range_to =
      on_range precondition_passes is_modified range_modified satisfiable age panics cache mime

  -- The range that is served is whole, or was asked for.
  on_range-total :
      (req : Request D I R) (path : Text) (file : F) (meta : Meta T) (etag : EntityTag)
      (range : Option R)
      → (range ≡ none) ⊎ (cache.encoding file ≡ identity)
      → Range_to req path file meta etag (range >>= λ r. satisfiable r meta.len) ≢ none
  unfolding on_range
  on_range-total req path file meta etag range h e =
      elim (Result-cases (verdict range satisfiable meta.len)) [
        | inr (_, bad) ↦ absurd (ground arith)
        | inl ((start, end), good) ↦
            serve-total cache req.method _ file meta etag start end (whole h good)
              (rw (good, on_range) at e)
      ]
    where
      whole :
          {start end : ℕ}
          → (range ≡ none) ⊎ (cache.encoding file ≡ identity)
          → verdict range satisfiable meta.len ≡ ok (start, end)
          → (end - start ≡ meta.len) ⊎ (cache.encoding file ≡ identity)
      whole (inl e) good = inl (whole_range range satisfiable meta.len e good)
      whole (inr e) good = inr e

  -- No addition of the range overflows, or the build does not check: no start is behind the last
  -- `u64`, and no end is at the last one, unless the file is that long.
  abbrev pub Fits : Option R → Type 0
  Fits range =
      (panics.overflow_checks ≡ false)
      ⊎ ((r : R) (n : ℕ) (start end : Bound)
          → range ≡ some r
          → satisfiable r n ≡ some (start, end)
          → (start ≢ excluded u64_max) × (end ≡ included u64_max → n ≡ u64_max))

  abbrev IsUnchecked : Option R → Type 0
  IsUnchecked range =
      (n : ℕ) → (panics.overflow_checks && overflows (range >>= λ r. satisfiable r n) n) ≡ false

  Fits-IsUnchecked : (range : Option R) → Fits range → IsUnchecked range
  unfolding overflows
  Fits-IsUnchecked range (inl off) n = ground arith
  Fits-IsUnchecked none (inr h) n = ground arith
  Fits-IsUnchecked (some r) (inr h) n = elim (Option-cases (satisfiable r n)) [
    | inl unsatisfied ↦ ground arith
    | inr ((start, end), given) ↦
        let (below, inside) = h r n start end refl given in
        rw (given, overflows-eq-false start end n below inside) (and_false panics.overflow_checks)
  ]

  on_cond-total :
      (req : Request D I R) (path : Text) (file : F) (meta : Meta T) (etag : EntityTag) (d : Cond R)
      → ((range : Option R)
          → d ≡ with_body range
          → ((range ≡ none) ⊎ (cache.encoding file ≡ identity)) × IsUnchecked range)
      → Cond_of req path file meta etag d ≢ none
  unfolding on_cond
  on_cond-total req path file meta etag (no_body code) h e = cc
  on_cond-total req path file meta etag (with_body range) h e =
      let (plain, fits) = h range refl in
      on_range-total req path file meta etag range plain (rw (fits meta.len, on_cond) at e)

  let_through :
      (req : Request D I R) (file : F) (last : Option T) (etag : EntityTag)
      → (req.conditionals.range ≡ none) ⊎ (cache.encoding file ≡ identity)
      → Fits req.conditionals.range
      → (range : Option R)
      → check precondition_passes is_modified range_modified req.conditionals last etag
        ≡ with_body range
      → ((range ≡ none) ⊎ (cache.encoding file ≡ identity)) × IsUnchecked range
  let_through req file last etag h fits range e =
      elim (check-range precondition_passes is_modified range_modified req.conditionals last etag
        range e) [
          | inl none_ ↦ (
            inl none_,
            subst IsUnchecked (sym none_) (Fits-IsUnchecked none (inr (λ r n s d k. cc))),
          )
          | inr same ↦ (
            ground arith,
            subst IsUnchecked (sym same) (Fits-IsUnchecked req.conditionals.range fits),
          )
        ]

  abbrev With_meta : Request D I R → Text → F → Meta T → Option (Reply T)
  With_meta =
      with_meta precondition_passes is_modified range_modified satisfiable age panics cache mime

  -- An HTTP date has a form for the metadata's time, if it has one.
  abbrev pub IsDated : Meta T → Type 0
  IsDated meta = (t : T) → meta.modified ≡ some t → panics.http_date t ≢ none

  abbrev date_of : Option T → Option (Option T)
  date_of = dated precondition_passes is_modified range_modified satisfiable age panics cache mime

  dated_total :
      (last : Option T)
      → ((t : T) → last ≡ some t → panics.http_date t ≢ none)
      → date_of last ≢ none
  dated_total none h e = cc
  dated_total (some t) h e = elim (Option-cases (panics.http_date t)) [
    | inl never ↦ h t refl never
    | inr (d, made) ↦ absurd (ground arith)
  ]

  abbrev With_date :
      Request D I R → Text → F → Meta T → EntityTag → Option (Option T) → Option (Reply T)
  With_date =
      with_date precondition_passes is_modified range_modified satisfiable age panics cache mime

  with_date-total :
      (req : Request D I R) (path : Text) (file : F) (meta : Meta T) (etag : EntityTag)
      (date : Option (Option T))
      → (req.conditionals.range ≡ none) ⊎ (cache.encoding file ≡ identity)
      → Fits req.conditionals.range
      → date ≢ none
      → With_date req path file meta etag date ≢ none
  unfolding with_date
  with_date-total req path file meta etag none h fits made e = made refl
  with_date-total req path file meta etag (some last) h fits made e =
      on_cond-total req path file (record meta { modified = last }) etag
        (check precondition_passes is_modified range_modified req.conditionals last etag)
        (let_through req file last etag h fits) e

  with_meta-total :
      (req : Request D I R) (path : Text) (file : F) (meta : Meta T)
      → (req.conditionals.range ≡ none) ⊎ (cache.encoding file ≡ identity)
      → Fits req.conditionals.range
      → IsDated meta
      → With_meta req path file meta ≢ none
  unfolding with_meta
  with_meta-total req path file meta h fits made e =
      with_date-total req path file meta (from_file (meta.modified >>= age) meta.len)
        (date_of meta.modified) h fits (dated_total meta.modified made) e

  abbrev With_file : Request D I R → Text → Option (Meta T) → F → Option (Reply T)
  With_file =
      with_file precondition_passes is_modified range_modified satisfiable age panics cache mime

  abbrev Known : Option (Meta T) → F → Meta T → Type 0
  Known = Describes precondition_passes is_modified range_modified satisfiable age panics cache mime

  with_file-total :
      (req : Request D I R) (path : Text) (given : Option (Meta T)) (file : F)
      → (req.conditionals.range ≡ none) ⊎ (cache.encoding file ≡ identity)
      → Fits req.conditionals.range
      → ((meta : Meta T) → Known given file meta → IsDated meta)
      → With_file req path given file ≢ none
  unfolding with_file
  with_file-total req path (some m) file h fits made e =
      with_meta-total req path file m h fits (made m refl) e
  with_file-total req path none file h fits made e =
      elim (Result-cases (cache.file_metadata file)) [
        | inl (m, got) ↦
            with_meta-total req path file m h fits (made m got) (rw (got, with_file) at e)
        | inr (bad, failed) ↦ ground arith
      ]

  as_it_is :
      (range : Option R) (accept : Option AcceptEncoding) (path : Text) (file : F)
      → ((p : Text) (f : F) → cache.open_file p none ≡ ok f → cache.encoding f ≡ identity)
      → cache.open_file path (accepts_of range accept) ≡ ok file
      → (range ≡ none) ⊎ (cache.encoding file ≡ identity)
  as_it_is none accept path file plain opened = inl refl
  as_it_is (some r) accept path file plain opened = inr (plain path file opened)

  -- `file_reply` answers every request without a panic, under three conditions: the modification
  -- time that the metadata of a file has, if any, is one that an HTTP date has a form for; the
  -- build does not check additions for overflow, or the request's range has in no file a start
  -- behind the last `u64` or, but for a file of that length, an end that includes it; and the cache
  -- opens every file uncompressed when no encodings are passed to it.
  pub file_reply-total :
      (req : Request D I R) (path : Text) (given : Option (Meta T))
      → ((f : F) (meta : Meta T) → Known given f meta → IsDated meta)
      → Fits req.conditionals.range
      → ((p : Text) (f : F) → cache.open_file p none ≡ ok f → cache.encoding f ≡ identity)
      → Reply_to req path given ≢ none
  unfolding file_reply
  file_reply-total req path given made fits plain e =
      elim (Result-cases
        (cache.open_file path (accepts_of req.conditionals.range req.accept_encoding))) [
          | inr (bad, failed) ↦ ground arith
          | inl (f, opened) ↦
              with_file-total req path given f
                (as_it_is req.conditionals.range req.accept_encoding path f plain opened) fits
                (made f) (rw (opened, file_reply) at e)
        ]
