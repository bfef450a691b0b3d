-- ===== src/Memory/Ranges.antt =====
-- Frames that leave the front of a range: the arithmetic behind kernel/krust/src/memory.rs.
use vertex_os.Base.{ℕ, zero, suc, ◌+◌, ◌*◌, ◌%◌, ◌≤◌, ◌≡◌, ap, arith}
use vertex_os.Memory.{frame_size, PhysicalFrame}
use vertex_os.Memory.Places.{is_frame, between}

-- The first frame of a range, and the rest.
pub between-next :
    (frame next end : ℕ)
    → next % frame_size ≡ 0
    → next + frame_size ≤ end
    → between frame next end ≡ is_frame frame next + between frame (next + frame_size) end
between-next frame next end aligned room = ground arith

-- 1 for each frame of a run of `n` from `next` that is the frame.
abbrev pub in_run : ℕ → PhysicalFrame → ℕ → ℕ
in_run zero frame next = 0
in_run (suc n) frame next = is_frame frame next + in_run n frame (next + frame_size)

pub between-run :
    (n frame next end : ℕ)
    → next % frame_size ≡ 0
    → next + n * frame_size ≤ end
    → between frame next end ≡ in_run n frame next + between frame (next + n * frame_size) end
between-run zero frame next end aligned room =
    let same : next ≡ next + 0 * frame_size = omega arith in
    omega (arith, ap (λ (m : ℕ). between frame m end) same)
between-run (suc n) frame next end aligned room =
    let same : next + frame_size + n * frame_size ≡ next + suc n * frame_size = omega arith in
    omega (
      arith,
      ap (λ (m : ℕ). between frame m end) same,
      between-next frame next end aligned (omega arith),
      between-run n frame (next + frame_size) end (omega arith) (omega arith),
    )
