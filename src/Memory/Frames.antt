-- ===== src/Memory/Frames.antt =====
-- The whole frames of an entry of the memory map: align_up, align_down and the ranges of
-- init_from_limine of kernel/krust/src/memory.rs.
use vertex_os.Base.{
  ℕ, zero, suc, ◌+◌, ◌*◌, ◌/◌, ◌%◌, ◌^◌, ◌≤◌, ◌≡◌, ap, ◌&&◌, ◌==◌, ltb, leb, if◌then◌else◌, bit_and,
  min, arith,
}
use vertex_os.Base.Bits.{ones, bit_and_halves, zero-bit_and}
use vertex_os.Ids.{u64_max, saturating_add}
use vertex_os.Memory.{
  frame_size, PhysicalFrame, align_up, align_down, MemmapEntry, entry_range, new_range, is_used,
}
use vertex_os.Memory.Places.{in_range}

-- An even mask leaves an even word.
even_mask : (x m : ℕ) → bit_and x (m * 2) ≡ bit_and (x / 2) m * 2
even_mask x m =
    let half : m * 2 / 2 ≡ m = omega arith in
    let last : min (x % 2) (m * 2 % 2) ≡ 0 = omega arith in
    omega (arith, bit_and_halves x (m * 2), ap (bit_and (x / 2)) half, last)

-- A mask of ones keeps a word of its width.
bit_and-ones : (w x : ℕ) → x ≤ ones w → bit_and x (ones w) ≡ x
bit_and-ones zero x h = let none_set : x ≡ 0 = omega (arith, h) in rw none_set (zero-bit_and 0)
bit_and-ones (suc w) x h =
    let half : (ones w * 2 + 1) / 2 ≡ ones w = omega arith in
    let last : min (x % 2) ((ones w * 2 + 1) % 2) ≡ x % 2 = omega arith in
    omega (
      arith,
      bit_and_halves x (ones w * 2 + 1),
      ap (bit_and (x / 2)) half,
      last,
      bit_and-ones w (x / 2) (omega (arith, h)),
    )

-- A mask that ends in twelve zeros takes the last part of a frame away.
masked_frames : (x : ℕ) → x ≤ u64_max → bit_and x 18446744073709547520 + x % 4096 ≡ x
masked_frames x h = omega (
  arith,
  even_mask x 9223372036854773760,
  even_mask (x / 2) 4611686018427386880,
  even_mask (x / 2 / 2) 2305843009213693440,
  even_mask (x / 2 / 2 / 2) 1152921504606846720,
  even_mask (x / 2 / 2 / 2 / 2) 576460752303423360,
  even_mask (x / 2 / 2 / 2 / 2 / 2) 288230376151711680,
  even_mask (x / 2 / 2 / 2 / 2 / 2 / 2) 144115188075855840,
  even_mask (x / 2 / 2 / 2 / 2 / 2 / 2 / 2) 72057594037927920,
  even_mask (x / 2 / 2 / 2 / 2 / 2 / 2 / 2 / 2) 36028797018963960,
  even_mask (x / 2 / 2 / 2 / 2 / 2 / 2 / 2 / 2 / 2) 18014398509481980,
  even_mask (x / 2 / 2 / 2 / 2 / 2 / 2 / 2 / 2 / 2 / 2) 9007199254740990,
  even_mask (x / 2 / 2 / 2 / 2 / 2 / 2 / 2 / 2 / 2 / 2 / 2) 4503599627370495,
  bit_and-ones 52 (x / 2 / 2 / 2 / 2 / 2 / 2 / 2 / 2 / 2 / 2 / 2 / 2) (omega (arith, h)),
)

pub align_up-frames :
    (value : ℕ)
    → align_up value frame_size + saturating_add value 4095 % frame_size ≡ saturating_add value 4095
unfolding align_up
align_up-frames value = masked_frames (saturating_add value 4095) (ground arith)

pub align_down-frames :
    (base length : ℕ)
    → align_down (saturating_add base length) frame_size + saturating_add base length % frame_size
      ≡ saturating_add base length
unfolding align_down
align_down-frames base length = masked_frames (saturating_add base length) (ground arith)

-- 1 for a whole frame inside a usable entry, below the last frame of the address space.
abbrev pub usable_frame : PhysicalFrame → MemmapEntry → ℕ
usable_frame frame entry =
    if entry.entry_type == 0
      && (frame % 4096 == 0
          && (leb entry.base frame
              && (leb (frame + 4096) (entry.base + entry.length) && ltb (frame + 4096) (2 ^ 64))))
    then 1
    else 0

-- The frames of the range that an entry gives are its usable frames.
frames_between :
    (kind frame base length S E : ℕ)
    → S + saturating_add base 4095 % 4096 ≡ saturating_add base 4095
    → E + saturating_add base length % 4096 ≡ saturating_add base length
    → ◌≡◌ {A = ℕ}
        (if kind == 0 && ltb S E
          then (if frame % 4096 == 0 && (leb S frame && ltb frame E) then 1 else 0)
          else 0)
        (if kind == 0
            && (frame % 4096 == 0
                && (leb base frame
                    && (leb (frame + 4096) (base + length) && ltb (frame + 4096) (2 ^ 64))))
          then 1
          else 0)
frames_between kind frame base length S E h k = ground (arith, h, k)

pub used-usable_frame :
    (frame : PhysicalFrame) (entry : MemmapEntry)
    → (if is_used entry then in_range frame (entry_range entry) else 0) ≡ usable_frame frame entry
unfolding is_used entry_range new_range
used-usable_frame frame entry =
    frames_between entry.entry_type frame entry.base entry.length (align_up entry.base frame_size)
      (align_down (saturating_add entry.base entry.length) frame_size) (align_up-frames entry.base)
      (align_down-frames entry.base entry.length)
