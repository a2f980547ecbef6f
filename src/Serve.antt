-- ===== src/Serve.antt =====
-- fs.rs: `file`, `dir` and `file_reply`. The file cache is a parameter, as it is in the source; so
-- are the typed headers (see Fs). A body is not read here: a reader is its offset, its buffer and
-- its length. A panic is `none`.
use ftl.Prelude.{
  ℕ, ◌+◌, ◌-◌, ◌*◌, min, max, Bool, true, false, not, ◌&&◌, Option, none, some, List, [], ◌∷◌,
  Result, ok, err, ◌==◌, if◌then◌else◌, ◌>>=◌,
}
use mathlib.Core.Option
use ftl.Http.{Text, Method, get, head}
use ftl.Strings.{codes}
use ftl.Encoding.{ContentEncoding, identity, AcceptEncoding}
use ftl.EntityTag.{EntityTag, from_file}
use ftl.Fs.{
  Bound, overflows, bytes_range, Conditionals, Cond, no_body, with_body, check, sanitize_path, push,
}
pub mod Replies
pub mod Whole
pub mod Total
pub mod Dirs

pub data IoError : Type 0 where
  not_found permission_denied other : IoError

pub record Meta (T : Type 0) : Type 0 where
  pub is_dir : Bool
  pub len : ℕ
  pub blksize : ℕ
  pub modified : Option T

-- What `file_reply` can panic on: the date of `LastModified` that a time is turned into, none for a
-- time that it has no form for, which panics; and whether the build checks additions for overflow.
-- The date is the time that it stands for.
pub record Panics (T : Type 0) : Type 0 where
  pub http_date : T → Option T
  pub overflow_checks : Bool

-- `FileCache`, with a file's `EncodedFile` and its `seek`.
pub record Cache (F T : Type 0) : Type 0 where
  pub is_method_allowed : Method → Bool
  pub open_file : Text → Option AcceptEncoding → Result F IoError
  pub metadata : Text → Result (Meta T) IoError
  pub file_metadata : F → Result (Meta T) IoError
  pub encoding : F → ContentEncoding
  pub full : F → Option (List ℕ)
  pub seek : F → ℕ → Result (Unit {0}) IoError

-- The default of `is_method_allowed`.
unfoldable pub get_or_head : Method → Bool
get_or_head get = true
get_or_head head = true
get_or_head _ = false

pub record Request (D I R : Type 0) : Type 0 where
  pub method : Method
  pub accept_encoding : Option AcceptEncoding
  pub conditionals : Conditionals D I R

pub data Body : Type 0 where
  empty : Body
  full : List ℕ → Body
  reader : ℕ → ℕ → ℕ → Body

-- A reply with the file's headers.
pub record Content (T : Type 0) : Type 0 where
  pub status : ℕ
  pub etag : EntityTag
  pub content_range : Option (ℕ × ℕ × ℕ)
  pub body : Body
  pub trailer : Bool
  pub last_modified : Option T
  pub content_encoding : Option ContentEncoding
  pub content_length : ℕ
  pub content_type : Text

pub data Reply (T : Type 0) : Type 0 where
  status : ℕ → Reply T
  without_body : ℕ → EntityTag → Reply T
  unsatisfied : ℕ → Reply T
  content : Content T → Reply T

abbrev pub default_read_buf_size : ℕ
default_read_buf_size = 1024 * 32

abbrev open_status : IoError → ℕ
open_status not_found = 404
open_status permission_denied = 403
open_status other = 500

-- `Error::IoError(e).into_response()`
abbrev seek_status : IoError → ℕ
seek_status not_found = 404
seek_status _ = 500

abbrev is_get : Method → Bool
is_get get = true
is_get _ = false

abbrev is_identity : ContentEncoding → Bool
is_identity identity = true
is_identity _ = false

-- Pre-compressed files are not asked for under a range.
abbrev pub accepts_of {ℓ} : {R : Type ℓ} → Option R → Option AcceptEncoding → Option AcceptEncoding
accepts_of none accept = accept
accepts_of (some _) accept = none

module _ {F T : Type 0} (cache : Cache F T) where
  -- The body of a GET, or the error of the seek.
  unfoldable pub make_body : F → Bool → ℕ → ℕ → ℕ → Result Body IoError
  make_body file is_partial start buf_size len =
      if is_partial
      then (if start == 0 then ok (reader start buf_size len) else elim (cache.seek file start) [
        | ok _ ↦ ok (reader start buf_size len)
        | err e ↦ err e
      ])
      else elim (cache.full file) [
        | some bytes ↦ ok (full bytes)
        | none ↦ ok (reader 0 buf_size len)
      ]

  abbrev is_reader : Body → Bool
  is_reader (reader _ _ _) = true
  is_reader _ = false

  -- The reply with a body, at the range `start` to `end`.
  unfoldable pub serve : Method → Text → F → Meta T → EntityTag → ℕ → ℕ → Option (Reply T)
  serve method mime file meta etag start end =
      let sub_len = end - start in
      let is_partial = not (sub_len == meta.len) in
      let buf_size = min (max meta.blksize default_read_buf_size) meta.len in
      let encoding = cache.encoding file in
      let reply = λ (b : Body). content (record {
        status = if is_partial then 206 else 200;
        etag = etag;
        content_range = if is_partial then some (start, end, meta.len) else none;
        body = b;
        trailer = is_reader b;
        last_modified = meta.modified;
        content_encoding = if is_identity encoding then none else some encoding;
        content_length = sub_len;
        content_type = mime;
      }) in
      if is_partial && not (is_identity encoding)
      then none
      else if is_get method
      then elim (make_body file is_partial start buf_size sub_len) [
        | ok b ↦ some (reply b)
        | err e ↦ some (status (seek_status e))
      ]
      else some (reply empty)

module _ {D I R F T : Type 0} (precondition_passes : D → T → Bool) (is_modified : D → T → Bool)
    (range_modified : I → Option T → Bool) (satisfiable : R → ℕ → Option (Bound × Bound))
    (age : T → Option (ℕ × ℕ)) (panics : Panics T) (cache : Cache F T)
    (mime : Text → Option Text) where
  abbrev or_octet_stream : Option Text → Text
  or_octet_stream none = codes "application/octet-stream"
  or_octet_stream (some m) = m

  -- What follows the conditional headers.
  unfoldable pub on_range :
      Request D I R → Text → F → Meta T → EntityTag → Option (Bound × Bound) → Option (Reply T)
  on_range req path file meta etag bounds = elim (bytes_range bounds meta.len) [
    | err _ ↦ some (unsatisfied meta.len)
    | ok (start, end) ↦
        serve cache req.method (or_octet_stream (mime path)) file meta etag start end
  ]

  unfoldable pub on_cond : Request D I R → Text → F → Meta T → EntityTag → Cond R → Option (Reply T)
  unfolding on_range
  on_cond req path file meta etag (no_body code) = some (without_body code etag)
  on_cond req path file meta etag (with_body range) =
      let bounds = range >>= λ r. satisfiable r meta.len in
      if panics.overflow_checks && overflows bounds meta.len
      then none
      else on_range req path file meta etag bounds

  -- `modified.map(LastModified::from)`; the outer `none` is its panic.
  abbrev pub dated : Option T → Option (Option T)
  dated none = some none
  dated (some t) = Option.map (λ d. some d) (panics.http_date t)

  -- The reply with the date: the metadata's time is the date's from here on.
  unfoldable pub with_date :
      Request D I R → Text → F → Meta T → EntityTag → Option (Option T) → Option (Reply T)
  unfolding on_cond
  with_date req path file meta etag none = none
  with_date req path file meta etag (some last) =
      on_cond req path file (record meta { modified = last }) etag
        (check precondition_passes is_modified range_modified req.conditionals last etag)

  unfoldable pub with_meta : Request D I R → Text → F → Meta T → Option (Reply T)
  unfolding with_date
  with_meta req path file meta =
      with_date req path file meta (from_file (meta.modified >>= age) meta.len)
        (dated meta.modified)

  -- What follows the opening of the file, with the metadata that `dir` has read already.
  unfoldable pub with_file : Request D I R → Text → Option (Meta T) → F → Option (Reply T)
  with_file req path (some m) f = with_meta req path f m
  with_file req path none f = elim (cache.file_metadata f) [
    | ok m ↦ with_meta req path f m
    | err _ ↦ some (status 500)
  ]

  unfoldable pub file_reply : Request D I R → Text → Option (Meta T) → Option (Reply T)
  file_reply req path given =
      elim (cache.open_file path (accepts_of req.conditionals.range req.accept_encoding)) [
        | err e ↦ some (status (open_status e))
        | ok f ↦ with_file req path given f
      ]

  unfoldable pub file : Request D I R → Text → Option (Reply T)
  file req path =
      if cache.is_method_allowed req.method then file_reply req path none else some (status 405)

  unfoldable pub dir : Bool → (Text → Option Text) → Request D I R → Text → Text → Option (Reply T)
  dir windows decode_utf8 req path base =
      if cache.is_method_allowed req.method
      then elim (sanitize_path windows decode_utf8 base path) [
        | err _ ↦ some (status 400)
        | ok buf ↦ elim (cache.metadata buf) [
          | err _ ↦ file_reply req buf none
          | ok m ↦
              if m.is_dir
              then file_reply req (push buf (codes "index.html")) none
              else file_reply req buf (some m)
        ]
      ]
      else some (status 405)
