-- ===== src/Serve/Whole.antt =====
-- fs.rs: the reply of `file_reply`, from the request to the headers.
use ftl.Prelude.{
  ℕ, ◌≡◌, inl, inr, refl, Bool, Option, none, some, false, ◌&&◌, Result, ok, ◌>>=◌, Result-cases,
  arith,
}
use ftl.Http.{Text, get, head}
use ftl.EntityTag.{EntityTag}
use ftl.Fs.{Bound, overflows, bytes_range, Cond, no_body, with_body, check}
use ftl.Fs.Ranges.{bytes_range_bounds}
use ftl.Serve.{
  Panics, Meta, Cache, Request, Content, Reply, content, accepts_of, on_range, on_cond, with_date,
  with_meta, with_file, file_reply,
}
use ftl.Serve.Replies.{IsConsistent, serve-IsConsistent, serve-head, strip}

abbrev pub verdict {ℓ} :
    {R : Type ℓ} → Option R → (R → ℕ → Option (Bound × Bound)) → ℕ → Result (ℕ × ℕ) (Unit {0})
verdict range satisfiable len = bytes_range (range >>= λ r. satisfiable r len) len

module _ {D I R F T : Type 0} (precondition_passes : D → T → Bool) (is_modified : D → T → Bool)
    (range_modified : I → Option T → Bool) (satisfiable : R → ℕ → Option (Bound × Bound))
    (age : T → Option (ℕ × ℕ)) (panics : Panics T) (cache : Cache F T)
    (mime : Text → Option Text) where
  abbrev pub Reply_of : Request D I R → Text → Option (Meta T) → Option (Reply T)
  Reply_of req path given =
      file_reply precondition_passes is_modified range_modified satisfiable age panics cache mime
        req path given

  abbrev Cond_of : Request D I R → Text → F → Meta T → EntityTag → Cond R → Option (Reply T)
  Cond_of = on_cond precondition_passes is_modified range_modified satisfiable age panics cache mime

  abbrev With_file : Request D I R → Text → Option (Meta T) → F → Option (Reply T)
  With_file =
      with_file precondition_passes is_modified range_modified satisfiable age panics cache mime

  abbrev Range_of :
      Request D I R → Text → F → Meta T → EntityTag → Option (Bound × Bound) → Option (Reply T)
  Range_of =
      on_range precondition_passes is_modified range_modified satisfiable age panics cache mime

  on_range-IsConsistent :
      (req : Request D I R) (path : Text) (file : F) (meta : Meta T) (etag : EntityTag)
      (bounds : Option (Bound × Bound)) (c : Content T)
      → Range_of req path file meta etag bounds ≡ some (content c)
      → (start : ℕ) × (end : ℕ) × IsConsistent req.method meta.len start end c
  unfolding on_range
  on_range-IsConsistent req path file meta etag bounds c e =
      elim (Result-cases (bytes_range bounds meta.len)) [
        | inr (_, bad) ↦ absurd (ground arith)
        | inl ((start, end), good) ↦
            let (order, fits, size) = bytes_range_bounds _ meta.len start end good in
            (
              start,
              end,
              serve-IsConsistent cache req.method _ file meta etag start end c order fits
                  (ground arith) (rw (good, on_range) at e),
            )
      ]

  -- A reply to a range comes from the range without an overflow.
  on_cond-on_range :
      (req : Request D I R) (path : Text) (file : F) (meta : Meta T) (etag : EntityTag)
      (range : Option R) (c : Content T)
      → Cond_of req path file meta etag (with_body range) ≡ some (content c)
      → ((panics.overflow_checks && overflows (range >>= λ r. satisfiable r meta.len) meta.len)
          ≡ false)
        × (Range_of req path file meta etag (range >>= λ r. satisfiable r meta.len)
            ≡ some (content c))
  unfolding on_cond
  on_cond-on_range req path file meta etag range c e = ground arith

  on_cond-IsConsistent :
      (req : Request D I R) (path : Text) (file : F) (meta : Meta T) (etag : EntityTag) (d : Cond R)
      (c : Content T)
      → Cond_of req path file meta etag d ≡ some (content c)
      → (start : ℕ) × (end : ℕ) × IsConsistent req.method meta.len start end c
  unfolding on_cond
  on_cond-IsConsistent req path file meta etag (no_body code) c e = absurd (ground arith)
  on_cond-IsConsistent req path file meta etag (with_body range) c e =
      on_range-IsConsistent req path file meta etag _ c
        (on_cond-on_range req path file meta etag range c e).1

  on_range-head :
      (req : Request D I R) (path : Text) (file : F) (meta : Meta T) (etag : EntityTag)
      (bounds : Option (Bound × Bound)) (c : Content T)
      → Range_of (record req { method = get }) path file meta etag bounds ≡ some (content c)
      → Range_of (record req { method = head }) path file meta etag bounds
        ≡ some (content (strip cache c))
  unfolding on_range
  on_range-head req path file meta etag bounds c e =
      elim (Result-cases (bytes_range bounds meta.len)) [
        | inr (_, bad) ↦ absurd (ground arith)
        | inl ((start, end), good) ↦
            rw (good, on_range)
              (serve-head cache _ file meta etag start end c (rw (good, on_range) at e))
      ]

  on_cond-head :
      (req : Request D I R) (path : Text) (file : F) (meta : Meta T) (etag : EntityTag) (d : Cond R)
      (c : Content T)
      → Cond_of (record req { method = get }) path file meta etag d ≡ some (content c)
      → Cond_of (record req { method = head }) path file meta etag d
        ≡ some (content (strip cache c))
  unfolding on_cond
  on_cond-head req path file meta etag (no_body code) c e = absurd (ground arith)
  on_cond-head req path file meta etag (with_body range) c e =
      let (fits, ranged) =
        on_cond-on_range (record req { method = get }) path file meta etag range c e in
      rw (fits, on_cond) (on_range-head req path file meta etag _ c ranged)

  -- The metadata of a reply: what `dir` has read, or the opened file's own.
  abbrev pub Describes : Option (Meta T) → F → Meta T → Type 0
  Describes (some m) file meta = m ≡ meta
  Describes none file meta = cache.file_metadata file ≡ ok meta

  abbrev With_date :
      Request D I R → Text → F → Meta T → EntityTag → Option (Option T) → Option (Reply T)
  With_date =
      with_date precondition_passes is_modified range_modified satisfiable age panics cache mime

  with_date-IsConsistent :
      (req : Request D I R) (path : Text) (file : F) (meta : Meta T) (etag : EntityTag)
      (date : Option (Option T)) (c : Content T)
      → With_date req path file meta etag date ≡ some (content c)
      → (start : ℕ) × (end : ℕ) × IsConsistent req.method meta.len start end c
  unfolding with_date
  with_date-IsConsistent req path file meta etag none c e = cc
  with_date-IsConsistent req path file meta etag (some last) c e =
      on_cond-IsConsistent req path file (record meta { modified = last }) etag
        (check precondition_passes is_modified range_modified req.conditionals last etag) c e

  with_date-head :
      (req : Request D I R) (path : Text) (file : F) (meta : Meta T) (etag : EntityTag)
      (date : Option (Option T)) (c : Content T)
      → With_date (record req { method = get }) path file meta etag date ≡ some (content c)
      → With_date (record req { method = head }) path file meta etag date
        ≡ some (content (strip cache c))
  unfolding with_date
  with_date-head req path file meta etag none c e = cc
  with_date-head req path file meta etag (some last) c e =
      on_cond-head req path file (record meta { modified = last }) etag
        (check precondition_passes is_modified range_modified req.conditionals last etag) c e

  with_file-IsConsistent :
      (req : Request D I R) (path : Text) (given : Option (Meta T)) (file : F) (c : Content T)
      → With_file req path given file ≡ some (content c)
      → (meta : Meta T) × (start : ℕ) × (end : ℕ) × Describes given file meta
        × IsConsistent req.method meta.len start end c
  unfolding with_file with_meta
  with_file-IsConsistent req path (some m) file c e =
      let (start, end, good) = with_date-IsConsistent req path file m _ _ c e in
      (m, start, end, refl, good)
  with_file-IsConsistent req path none file c e = elim (Result-cases (cache.file_metadata file)) [
    | inr (bad, failed) ↦ absurd (ground arith)
    | inl (m, got) ↦
        let (start, end, good) =
          with_date-IsConsistent req path file m _ _ c (rw (got, with_file) at e) in
        (m, start, end, got, good)
  ]

  -- A reply with content is one of the file that was opened, and is consistent with the length in
  -- its metadata (the caller's, or the opened file's own): status 200, no `content-range` and the
  -- whole length, or 206 with a non-empty range that lies inside the file, is shorter than it and
  -- is named by `content-range`; `content-length` is the range's length, and a request that is no
  -- GET gets no body.
  pub file_reply-IsConsistent :
      (req : Request D I R) (path : Text) (given : Option (Meta T)) (c : Content T)
      → Reply_of req path given ≡ some (content c)
      → (f : F) × (meta : Meta T) × (start : ℕ) × (end : ℕ) × (cache.open_file path
            (accepts_of req.conditionals.range req.accept_encoding)
          ≡ ok f)
        × Describes given f meta
        × IsConsistent req.method meta.len start end c
  unfolding file_reply
  file_reply-IsConsistent req path given c e =
      elim (Result-cases
        (cache.open_file path (accepts_of req.conditionals.range req.accept_encoding))) [
          | inr (bad, failed) ↦ absurd (ground arith)
          | inl (f, opened) ↦
              let (meta, start, end, described, good) =
                with_file-IsConsistent req path given f c (rw (opened, file_reply) at e) in
              (f, meta, start, end, opened, described, good)
        ]

  with_file-head :
      (req : Request D I R) (path : Text) (given : Option (Meta T)) (file : F) (c : Content T)
      → With_file (record req { method = get }) path given file ≡ some (content c)
      → With_file (record req { method = head }) path given file ≡ some (content (strip cache c))
  unfolding with_file with_meta
  with_file-head req path (some m) file c e = with_date-head req path file m _ _ c e
  with_file-head req path none file c e = elim (Result-cases (cache.file_metadata file)) [
    | inr (bad, failed) ↦ absurd (ground arith)
    | inl (m, got) ↦
        rw (got, with_file) (with_date-head req path file m _ _ c (rw (got, with_file) at e))
  ]

  -- Whenever a GET is answered with content, the same request made as HEAD is answered with the
  -- same status and headers but for the trailer, and without a body.
  pub file_reply-head :
      (req : Request D I R) (path : Text) (given : Option (Meta T)) (c : Content T)
      → Reply_of (record req { method = get }) path given ≡ some (content c)
      → Reply_of (record req { method = head }) path given ≡ some (content (strip cache c))
  unfolding file_reply
  file_reply-head req path given c e =
      elim (Result-cases
        (cache.open_file path (accepts_of req.conditionals.range req.accept_encoding))) [
          | inr (bad, failed) ↦ absurd (ground arith)
          | inl (f, opened) ↦
              rw (opened, file_reply)
                (with_file-head req path given f c (rw (opened, file_reply) at e))
        ]
