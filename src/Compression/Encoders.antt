-- ===== src/Compression/Encoders.antt =====
-- layers/compression/mod.rs: the encoder of an encoding at a level, said apart from the code.
use ftl.Prelude.{ℕ, ◌≤◌, ◌≡◌, ◌≢◌, ◌⊎◌, inl, inr, Bool-cases, none, some, refl, leb, arith}
use ftl.Encoding.{ContentEncoding, identity, deflate, gzip, brotli, zstd}
use ftl.Compression.{
  Level, best, default, precise, Encoder, deflate_encoder, gzip_encoder, brotli_encoder,
  zstd_encoder, brotli_level, needs_window_limit, encoder_of,
}

-- A level whose window the zstd encoder would let grow over 8 MiB.
abbrev IsLarge : Level → Type 0
IsLarge level = (level ≡ best) ⊎ ((n : ℕ) × (level ≡ precise n) × (17 ≤ n))

-- The encoder of an encoding at a level: brotli's own default is level 4, and zstd's window is
-- limited to 2 ^ 23 bytes at large levels.
pub data EncoderFor : ContentEncoding → Level → Encoder → Type 0 where
  by_deflate : {level : Level} → EncoderFor deflate level (deflate_encoder level)
  by_gzip : {level : Level} → EncoderFor gzip level (gzip_encoder level)
  by_brotli_default : EncoderFor brotli default (brotli_encoder (precise 4))
  by_brotli : {level : Level} → level ≢ default → EncoderFor brotli level (brotli_encoder level)
  by_zstd_limited :
      {level : Level} → IsLarge level → EncoderFor zstd level (zstd_encoder level (some 23))
  by_zstd : {level : Level} → (IsLarge level → ⊥) → EncoderFor zstd level (zstd_encoder level none)

zstd-EncoderFor :
    (level : Level) → (c : Encoder) × (encoder_of zstd level ≡ some c) × EncoderFor zstd level c
unfolding encoder_of needs_window_limit
zstd-EncoderFor best = (_, refl, by_zstd_limited (inl refl))
zstd-EncoderFor (precise n) = elim (Bool-cases (leb 17 n)) [
  | inl h ↦
      (zstd_encoder (precise n) (some 23), rw h refl, by_zstd_limited (inr (n, refl, ground arith)))
  | inr h ↦ (zstd_encoder (precise n) none, rw h refl, by_zstd (λ k. ground arith))
]
zstd-EncoderFor level = (_, refl, by_zstd (λ k. ground arith))

brotli-EncoderFor :
    (level : Level) → (c : Encoder) × (encoder_of brotli level ≡ some c) × EncoderFor brotli level c
unfolding encoder_of brotli_level
brotli-EncoderFor default = (_, refl, by_brotli_default)
brotli-EncoderFor level = (_, refl, by_brotli (λ e. cc))

pub encoder_cases :
    (e : ContentEncoding) (level : Level)
    → (e ≡ identity)
      ⊎ ((e ≢ identity) × ((c : Encoder) × (encoder_of e level ≡ some c) × EncoderFor e level c))
unfolding encoder_of
encoder_cases identity level = inl refl
encoder_cases deflate level = inr ((λ e. cc), (_, refl, by_deflate))
encoder_cases gzip level = inr ((λ e. cc), (_, refl, by_gzip))
encoder_cases brotli level = inr ((λ e. cc), brotli-EncoderFor level)
encoder_cases zstd level = inr ((λ e. cc), zstd-EncoderFor level)
