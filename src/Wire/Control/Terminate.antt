-- ===== src/Wire/Control/Terminate.antt =====
-- What the accessors of a terminate message read (common/common.h).
use Prim.Native.Nat.{bit_and}
use soft_ui_warp.Prelude.{ℕ, ◌+◌, ◌*◌, ◌/◌, ◌%◌, ◌^◌, ◌<◌, ◌≡◌, arith}
use soft_ui_warp.Wire.{htonl, swap_bytes, le_bytes, from_le}
use soft_ui_warp.Wire.Bits.{bit_and-parts, bit_and-zero, bit_and-ones}
use soft_ui_warp.Wire.Control.{
  IwarpTerminate, rdmap_term_mask_layer, rdmap_term_mask_etype, rdmap_term_mask_ecode,
  rdmap_term_layer, rdmap_term_etype, rdmap_term_ecode,
}

-- The control word of a terminate message, before it is put into network order: the layer, the type
-- and the code of the error, and the 16 bits of flags and reserved bits.
unfoldable pub term_word : ℕ → ℕ → ℕ → ℕ → ℕ
term_word layer etype ecode rest = ((layer * 2 ^ 4 + etype) * 2 ^ 8 + ecode) * 2 ^ 16 + rest

module _ (layer etype ecode rest : ℕ) (fits_layer : layer < 2 ^ 4) (fits_etype : etype < 2 ^ 4)
    (fits_ecode : ecode < 2 ^ 8) (fits_rest : rest < 2 ^ 16) where
  -- The word as a little-endian machine reads it.
  htonl-term_word :
      htonl (term_word layer etype ecode rest)
      ≡ (rest % 2 ^ 8 * 2 ^ 8 + rest / 2 ^ 8) * 2 ^ 16 + (ecode * 2 ^ 8 + (layer * 2 ^ 4 + etype))
  unfolding htonl swap_bytes le_bytes from_le term_word
  htonl-term_word = omega (arith, fits_layer, fits_etype, fits_ecode, fits_rest)

  -- A mask within the low 16 bits, by its parts.
  masked :
      (c t e : ℕ)
      → c < 2 ^ 8
      → t < 2 ^ 4
      → e < 2 ^ 4
      → bit_and
          (htonl (term_word layer etype ecode rest))
          (0 * 2 ^ 16 + (c * 2 ^ 8 + (t * 2 ^ 4 + e)))
        ≡ bit_and ecode c * 2 ^ 8 + (bit_and layer t * 2 ^ 4 + bit_and etype e)
  masked c t e p q r =
      let up : ℕ = rest % 2 ^ 8 * 2 ^ 8 + rest / 2 ^ 8 in
      let low : ℕ = ecode * 2 ^ 8 + (layer * 2 ^ 4 + etype) in
      rw
        (
          htonl-term_word,
          bit_and-parts 16 up low 0 (c * 2 ^ 8 + (t * 2 ^ 4 + e)) (omega arith) (omega arith),
          bit_and-parts 8 ecode (layer * 2 ^ 4 + etype) c (t * 2 ^ 4 + e) (omega arith)
              (omega arith),
          bit_and-parts 4 layer etype t e fits_etype r,
          bit_and-zero up,
        )
        (omega arith)

  layer_read :
      htonl (bit_and (htonl (term_word layer etype ecode rest)) rdmap_term_mask_layer)
        / 2 ^ 28
        % 2 ^ 8
      ≡ layer
  unfolding rdmap_term_mask_layer htonl swap_bytes le_bytes from_le
  layer_read =
      rw
        (
          masked 0 15 0 (omega arith) (omega arith) (omega arith),
          bit_and-ones 4 layer fits_layer,
          bit_and-zero etype,
          bit_and-zero ecode,
        )
        (omega (arith, fits_layer))

  etype_read :
      htonl (bit_and (htonl (term_word layer etype ecode rest)) rdmap_term_mask_etype)
        / 2 ^ 24
        % 2 ^ 8
      ≡ etype
  unfolding rdmap_term_mask_etype htonl swap_bytes le_bytes from_le
  etype_read =
      rw
        (
          masked 0 0 15 (omega arith) (omega arith) (omega arith),
          bit_and-ones 4 etype fits_etype,
          bit_and-zero layer,
          bit_and-zero ecode,
        )
        (omega (arith, fits_etype))

  ecode_read :
      htonl (bit_and (htonl (term_word layer etype ecode rest)) rdmap_term_mask_ecode)
        / 2 ^ 20
        % 2 ^ 8
      ≡ ecode / 2 ^ 4
  unfolding rdmap_term_mask_ecode htonl swap_bytes le_bytes from_le
  ecode_read =
      rw
        (
          masked 255 0 0 (omega arith) (omega arith) (omega arith),
          bit_and-ones 8 ecode fits_ecode,
          bit_and-zero layer,
          bit_and-zero etype,
        )
        (omega (arith, fits_ecode))

  -- The message with that control word.
  abbrev terminate_of : IwarpTerminate → IwarpTerminate
  terminate_of t = record t { term_ctrl = htonl (term_word layer etype ecode rest) }

  -- Of a terminate message whose control word is a layer and a type of 4 bits, a code of 8 bits and
  -- 16 further bits, in network order, the accessors read the layer, the type, and of the code only
  -- the high four bits: two codes that agree in these are not told apart.
  pub term_fields :
      (t : IwarpTerminate)
      → (rdmap_term_layer (terminate_of t) ≡ layer)
        × (rdmap_term_etype (terminate_of t) ≡ etype)
        × (rdmap_term_ecode (terminate_of t) ≡ ecode / 2 ^ 4)
  unfolding rdmap_term_layer rdmap_term_etype rdmap_term_ecode
  term_fields t = (layer_read, etype_read, ecode_read)
