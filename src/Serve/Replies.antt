-- ===== src/Serve/Replies.antt =====
-- fs.rs: the end of `file_reply`, from the range to the reply.
use ftl.Prelude.{
  ℕ, ◌-◌, ◌≤◌, ◌<◌, ◌≡◌, ◌≢◌, ◌⊎◌, inl, inr, Bool, false, not, Option, none, some, List, ◌==◌,
  if◌then◌else◌, Bool-cases, arith,
}
use ftl.Http.{Text, Method, get, head}
use ftl.Encoding.{identity}
use ftl.EntityTag.{EntityTag}
use ftl.Fs.{
  Conditionals, Cond, with_body, check, check_none_match, check_unmodified, check_since,
  check_range,
}
use ftl.Serve.{Meta, Cache, empty, Content, content, is_get, serve}

-- The status, the range and the length of a reply are those of the bytes from `start` to `end` of a
-- file of length `len`; only GET has a body, which is a whole file or a reader of those bytes.
pub record IsConsistent {T : Type 0} (method : Method) (len start end : ℕ) (c : Content T)
    : Type 0 where
  pub within : (start ≤ end) × (end ≤ len)
  pub headers :
      ((c.status ≡ 200) × (c.content_range ≡ none) × (start ≡ 0) × (end ≡ len))
      ⊎ ((c.status ≡ 206)
          × (c.content_range ≡ some (start, end, len))
          × (start < end)
          × (end - start < len))
  pub measured : c.content_length ≡ end - start
  pub bodiless : is_get method ≡ false → c.body ≡ empty

module _ {F T : Type 0} (cache : Cache F T) where
  serve-headers :
      (method : Method) (mime : Text) (file : F) (meta : Meta T) (etag : EntityTag) (start end : ℕ)
      (c : Content T)
      → serve cache method mime file meta etag start end ≡ some (content c)
      → (c.status ≡ (if not (end - start == meta.len) then 206 else 200))
        × (c.content_range
            ≡ (if not (end - start == meta.len) then some (start, end, meta.len) else none))
        × (c.content_length ≡ end - start)
        × (is_get method ≡ false → c.body ≡ empty)
  unfolding serve
  serve-headers method mime file meta etag start end c e = ground arith

  pub serve-IsConsistent :
      (method : Method) (mime : Text) (file : F) (meta : Meta T) (etag : EntityTag) (start end : ℕ)
      (c : Content T)
      → start ≤ end
      → end ≤ meta.len
      → (start < end) ⊎ ((start ≡ 0) × (end ≡ meta.len))
      → serve cache method mime file meta etag start end ≡ some (content c)
      → IsConsistent method meta.len start end c
  serve-IsConsistent method mime file meta etag start end c h k l e =
      let (code, range, size, body) = serve-headers method mime file meta etag start end c e in
      record {
        within = (h, k);
        headers = elim (Bool-cases (end - start == meta.len)) [
          | inl all ↦ inl (ground arith)
          | inr part ↦ inr (ground arith)
        ];
        measured = size;
        bodiless = body;
      }

  -- Where the reply to HEAD is the reply to GET without its body.
  abbrev pub strip : Content T → Content T
  strip c = record c { body = empty; trailer = false }

  pub serve-head :
      (mime : Text) (file : F) (meta : Meta T) (etag : EntityTag) (start end : ℕ) (c : Content T)
      → serve cache get mime file meta etag start end ≡ some (content c)
      → serve cache head mime file meta etag start end ≡ some (content (strip c))
  unfolding serve
  serve-head mime file meta etag start end c e = ground arith

  pub serve-total :
      (method : Method) (mime : Text) (file : F) (meta : Meta T) (etag : EntityTag) (start end : ℕ)
      → (end - start ≡ meta.len) ⊎ (cache.encoding file ≡ identity)
      → serve cache method mime file meta etag start end ≢ none
  unfolding serve
  serve-total method mime file meta etag start end h = ground arith

module _ {D I R T : Type 0} (precondition_passes : D → T → Bool) (is_modified : D → T → Bool)
    (range_modified : I → Option T → Bool) where
  none_match_body :
      (tags : Option (List EntityTag)) (rest : Cond R) (etag : EntityTag) (range : Option R)
      → check_none_match precondition_passes is_modified range_modified tags rest etag
        ≡ with_body range
      → rest ≡ with_body range
  unfolding check_none_match
  none_match_body none rest etag range h = h
  none_match_body (some tags) rest etag range h = ground arith

  unmodified_body :
      (d : Option D) (rest : Cond R) (last : Option T) (range : Option R)
      → check_unmodified precondition_passes is_modified range_modified d rest last
        ≡ with_body range
      → rest ≡ with_body range
  unfolding check_unmodified
  unmodified_body none rest last range h = h
  unmodified_body (some d) rest none range h = cc
  unmodified_body (some d) rest (some t) range h = ground arith

  since_body :
      (d : Option D) (rest : Cond R) (last : Option T) (range : Option R)
      → check_since precondition_passes is_modified range_modified d rest last ≡ with_body range
      → rest ≡ with_body range
  unfolding check_since
  since_body none rest last range h = h
  since_body (some d) rest none range h = h
  since_body (some d) rest (some t) range h = ground arith

  range_body :
      (i : Option I) (given : Option R) (last : Option T) (range : Option R)
      → check_range precondition_passes is_modified range_modified i given last ≡ with_body range
      → (range ≡ none) ⊎ (range ≡ given)
  unfolding check_range
  range_body none given last range h = ground arith
  range_body (some i) given last range h = ground arith

  -- What is let through carries the request's range, or none.
  pub check-range :
      (c : Conditionals D I R) (last : Option T) (etag : EntityTag) (range : Option R)
      → check precondition_passes is_modified range_modified c last etag ≡ with_body range
      → (range ≡ none) ⊎ (range ≡ c.range)
  unfolding check
  check-range c last etag range h = range_body c.if_range c.range last range (
      since_body c.if_modified_since _ last range (
        unmodified_body c.if_unmodified_since _ last range
          (none_match_body c.if_none_match _ etag range h)))
