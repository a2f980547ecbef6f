-- ===== src/Serve/Dirs.antt =====
-- fs.rs: the files that `dir` opens.
use ftl.Prelude.{
  ℕ, ◌≡◌, ◌≢◌, ◌⊎◌, ◌∙◌, inl, inr, refl, ap, Bool, Option, none, some, List, ◌++◌, ok, err, All,
  Result-cases, Bool-cases, arith,
}
use ftl.Http.{Text}
use ftl.Strings.{codes, split, is}
use mathlib.Core.List.{append_assoc}
use ftl.Strings.Pieces.{Avoids}
use ftl.Fs.{Bound, SanitizeError, push, sanitize_path}
use ftl.Fs.Paths.{IsSafe, push_all, push-append, sanitize_path-IsSafe}
use ftl.Serve.{Panics, Meta, Cache, Request, Content, Reply, content, accepts_of, dir}
use ftl.Serve.Whole.{Reply_of, file_reply-IsConsistent}

-- The paths that a request for the segments `segs` can open: the base with them, or the index there.
abbrev pub IsIndexed : Text → List Text → Text → Type 0
IsIndexed base segs path =
    (path ≡ push_all base segs) ⊎ (path ≡ push (push_all base segs) (codes "index.html"))

index_Avoids : Avoids (is b'/') (codes "index.html")
index_Avoids = ground arith

below :
    (base buf opened rest : Text)
    → buf ≡ base ++ rest
    → (opened ≡ buf) ⊎ (opened ≡ push buf (codes "index.html"))
    → (more : Text) × (opened ≡ base ++ more)
below base buf opened rest h (inl same) = (rest, same ∙ h)
below base buf opened rest h (inr index) =
    let (last, longer) = push-append buf (codes "index.html") index_Avoids in
    (rest ++ last, index ∙ longer ∙ ap (λ b. b ++ last) h ∙ append_assoc base rest last)

indexed :
    (base buf opened : Text) (segs : List Text)
    → buf ≡ push_all base segs
    → (opened ≡ buf) ⊎ (opened ≡ push buf (codes "index.html"))
    → IsIndexed base segs opened
indexed base buf opened segs h (inl same) = inl (same ∙ h)
indexed base buf opened segs h (inr index) = inr (index ∙ ap (λ b. push b (codes "index.html")) h)

module _ {D I R F T : Type 0} (precondition_passes : D → T → Bool) (is_modified : D → T → Bool)
    (range_modified : I → Option T → Bool) (satisfiable : R → ℕ → Option (Bound × Bound))
    (age : T → Option (ℕ × ℕ)) (panics : Panics T) (cache : Cache F T)
    (mime : Text → Option Text) where
  abbrev pub Dir_of : Bool → (Text → Option Text) → Request D I R → Text → Text → Option (Reply T)
  Dir_of windows decode_utf8 req path base =
      dir precondition_passes is_modified range_modified satisfiable age panics cache mime windows
        decode_utf8 req path base

  abbrev whole : Request D I R → Text → Option (Meta T) → Option (Reply T)
  whole = Reply_of precondition_passes is_modified range_modified satisfiable age panics cache mime

  -- What `dir` does once the path is accepted.
  dir_opens :
      (windows : Bool) (decode_utf8 : Text → Option Text) (req : Request D I R)
      (path base buf : Text) (c : Content T)
      → sanitize_path windows decode_utf8 base path ≡ ok buf
      → Dir_of windows decode_utf8 req path base ≡ some (content c)
      → (opened : Text) × (given : Option (Meta T)) × ((opened ≡ buf)
          ⊎ (opened ≡ push buf (codes "index.html")))
        × (whole req opened given ≡ some (content c))
  unfolding dir
  dir_opens windows decode_utf8 req path base buf c h e =
      elim (Bool-cases (cache.is_method_allowed req.method)) [
        | inr refused ↦ absurd (ground arith)
        | inl allowed ↦ elim (Result-cases (cache.metadata buf)) [
          | inr (bad, unknown) ↦ (buf, none, inl refl, ground arith)
          | inl (m, known) ↦ elim (Bool-cases m.is_dir) [
            | inl index ↦ (push buf (codes "index.html"), none, inr refl, ground arith)
            | inr plain ↦ (buf, some m, inl refl, ground arith)
          ]
        ]
      ]

  dir_refused :
      (windows : Bool) (decode_utf8 : Text → Option Text) (req : Request D I R) (path base : Text)
      (c : Content T) (bad : SanitizeError)
      → sanitize_path windows decode_utf8 base path ≡ err bad
      → Dir_of windows decode_utf8 req path base ≢ some (content c)
  unfolding dir
  dir_refused windows decode_utf8 req path base c bad h e =
      elim (Bool-cases (cache.is_method_allowed req.method)) [
        | inr refused ↦ ground arith
        | inl allowed ↦ ground arith
      ]

  -- Whenever `dir` answers with content, the request's path decodes, none of its segments begins
  -- with two dots or holds a slash or a backslash, and the cache has opened a file at the base with
  -- these segments pushed onto it, or at `index.html` pushed onto that; the path of this file
  -- begins with the base.
  pub dir-IsSafe :
      (windows : Bool) (decode_utf8 : Text → Option Text) (req : Request D I R) (path base : Text)
      (c : Content T)
      → Dir_of windows decode_utf8 req path base ≡ some (content c)
      → (p : Text) × (opened : Text) × (rest : Text) × (f : F) × (decode_utf8 path ≡ some p)
        × All IsSafe (split (is b'/') p)
        × IsIndexed base (split (is b'/') p) opened
        × (opened ≡ base ++ rest)
        × (cache.open_file opened (accepts_of req.conditionals.range req.accept_encoding) ≡ ok f)
  dir-IsSafe windows decode_utf8 req path base c e =
      elim (Result-cases (sanitize_path windows decode_utf8 base path)) [
        | inr (bad, refused) ↦
            absurd (dir_refused windows decode_utf8 req path base c bad refused e)
        | inl (buf, accepted) ↦
            let (p, rest, good, safe, same, under) =
              sanitize_path-IsSafe windows decode_utf8 base path buf accepted in
            let (opened, given, where_, reply) =
              dir_opens windows decode_utf8 req path base buf c accepted e in
            let (f, _, _, _, found, _, _) =
              file_reply-IsConsistent precondition_passes is_modified range_modified satisfiable age
                panics cache mime req opened given c reply in
            let (more, inside) = below base buf opened rest under where_ in
            (
              p,
              opened,
              more,
              f,
              good,
              safe,
              indexed base buf opened (split (is b'/') p) same where_,
              inside,
              found,
            )
      ]
