-- ===== src/Compression/Carried.antt =====
-- layers/compression/mod.rs: the bytes and the trailers of a body, and what the encoder makes of them.
use ftl.Prelude.{◌≡◌, Option, none, some, List, [], ◌∷◌, ◌++◌, refl, ◌∙◌}
use ftl.Http.{Text}
use ftl.Compression.{Encoder, Frame, bytes, trailers, all_bytes, last_trailers, compress, trailing}

-- The bytes of a body's frames, one after the other, and its last trailers.
pub data Carries : List Frame → Text → Option Text → Type 0 where
  nothing : Carries [] [] none
  data_frame :
      {b t : Text} {fs : List Frame} {o : Option Text}
      → Carries fs t o
      → Carries (bytes b ∷ fs) (b ++ t) o
  last_frame :
      {x t : Text} {fs : List Frame} → Carries fs t none → Carries (trailers x ∷ fs) t (some x)
  earlier_frame :
      {x y t : Text} {fs : List Frame}
      → Carries fs t (some y)
      → Carries (trailers x ∷ fs) t (some y)

-- One frame with the encoder's output for the whole body, and then the body's last trailers.
pub data Encodes (output : Text → Text) (body : List Frame) : List Frame → Type 0 where
  plain : {t : Text} → Carries body t none → Encodes output body (bytes (output t) ∷ [])
  trailed :
      {t x : Text}
      → Carries body t (some x)
      → Encodes output body (bytes (output t) ∷ trailers x ∷ [])

abbrev or_else : Option Text → Text → Option Text
or_else none x = some x
or_else (some y) x = some y

last_trailers_from :
    (fs : List Frame) (x : Text) → last_trailers (some x) fs ≡ or_else (last_trailers none fs) x
unfolding last_trailers
last_trailers_from [] x = refl
last_trailers_from (bytes b ∷ fs) x = last_trailers_from fs x
last_trailers_from (trailers y ∷ fs) x =
    last_trailers_from fs y ∙ kept (last_trailers none fs) (last_trailers_from fs y)
  where
    kept :
        (o : Option Text)
        → last_trailers (some y) fs ≡ or_else o y
        → or_else o y ≡ or_else (last_trailers (some y) fs) x
    kept none h = rw h refl
    kept (some z) h = rw h refl

trailers-Carries :
    (fs : List Frame) (x t : Text) (o : Option Text)
    → Carries fs t o
    → Carries (trailers x ∷ fs) t (or_else o x)
trailers-Carries fs x t none h = last_frame h
trailers-Carries fs x t (some y) h = earlier_frame h

all_bytes-Carries : (fs : List Frame) → Carries fs (all_bytes fs) (last_trailers none fs)
unfolding all_bytes last_trailers
all_bytes-Carries [] = nothing
all_bytes-Carries (bytes b ∷ fs) = data_frame (all_bytes-Carries fs)
all_bytes-Carries (trailers x ∷ fs) =
    rw (last_trailers_from fs x)
      (trailers-Carries fs x (all_bytes fs) (last_trailers none fs) (all_bytes-Carries fs))

pub compress-Encodes :
    (encode : Encoder → Text → Text) (c : Encoder) (body : List Frame)
    → Encodes (encode c) body (compress encode c body)
unfolding compress trailing
compress-Encodes encode c body = by_trailers (last_trailers none body) (all_bytes-Carries body)
  where
    by_trailers :
        (o : Option Text)
        → Carries body (all_bytes body) o
        → Encodes (encode c) body (bytes (encode c (all_bytes body)) ∷ trailing o)
    by_trailers none h = plain h
    by_trailers (some x) h = trailed h
