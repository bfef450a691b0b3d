-- ===== src/Process/Handles.antt =====
-- The handles of open files: open_file_handle, file_handle and close_file_handle of
-- kernel/krust/src/kernel/process_runtime.rs.
use vertex_os.Base.{
  ℕ, ◌+◌, ◌-◌, ◌*◌, ◌/◌, ◌%◌, ◌<◌, ◌≡◌, ◌∙◌, refl, sym, ap, inl, inr, ◌||◌, none, some, List,
  Result, ok, err, ◌==◌, if◌then◌else◌, eq→==, length, get_elem?, set, get_elem?-set_self,
  get_elem?-lt, subst, All, All-get, Bool-cases, Option-cases, bit_or, arith,
}
use vertex_os.Base.Search.{position-cases}
use vertex_os.Base.Bits.{bit_or_byte, bit_and_byte}
use vertex_os.Ids.{IpcError, vfs_bad_handle, vfs_no_space}
use vertex_os.Vfs.Handle.{FileHandle, FileHandleSlot}
use vertex_os.Process.{max_file_handles}
use vertex_os.Process.FileHandles.{
  decode_file_handle, is_free, next_generation, raw_handle, open_file_handle, handle_in,
  file_handle, release_slot, close_file_handle,
}

abbrev max_generation : ℕ
max_generation = 72057594037927936

-- The generation of a slot can go up by one and still be shifted by eight bits.
abbrev pub CanReopen : FileHandleSlot → Type 0
CanReopen slot = slot.generation + 1 < max_generation

decode-raw_handle :
    (generation index : ℕ)
    → 0 < generation
    → generation < max_generation
    → index < max_file_handles
    → decode_file_handle (raw_handle generation index) ≡ ok (index, generation)
unfolding decode_file_handle raw_handle
decode-raw_handle generation index positive small inside =
    let shifted : generation * 256 % 18446744073709551616 ≡ generation * 256 = omega arith in
    let raw : bit_or (generation * 256 % 18446744073709551616) (index + 1)
        ≡ generation * 256 + (index + 1) =
      ap (λ (t : ℕ). bit_or t (index + 1)) shifted
      ∙ bit_or_byte generation (index + 1) (omega arith) in
    rw raw (go _ (bit_and_byte (generation * 256 + (index + 1))))
  where
    go :
        (slot : ℕ)
        → slot ≡ (generation * 256 + (index + 1)) % 256
        → ◌≡◌ {A = Result IpcError (ℕ × ℕ)}
            (if generation * 256 + (index + 1) == 0
                || (slot == 0 || (generation * 256 + (index + 1)) / 256 == 0)
              then err vfs_bad_handle
              else ok (slot - 1, (generation * 256 + (index + 1)) / 256))
            (ok (index, generation))
    go slot e =
        let one : slot ≡ index + 1 = omega arith in
        let two : (generation * 256 + (index + 1)) / 256 ≡ generation = omega arith in
        let three : index + 1 - 1 ≡ index = omega arith in rw (one, two) ground (arith, three)

-- The slot that a handle was put into.
record Opened (handle : FileHandle) (slots : List FileHandleSlot) (raw : ℕ)
    (slots' : List FileHandleSlot) : Type 0 where
  index : ℕ
  generation : ℕ
  inside : index < length slots
  raw_is : raw ≡ raw_handle generation index
  slots_are : slots' ≡ set slots index (record { generation = generation; handle = some handle })
  positive : 0 < generation
  small : generation < max_generation

open_file_handle-Opened :
    (handle : FileHandle) (slots : List FileHandleSlot) (raw : ℕ) (slots' : List FileHandleSlot)
    → All CanReopen slots
    → open_file_handle handle slots ≡ ok (raw, slots')
    → Opened handle slots raw slots'
unfolding open_file_handle
open_file_handle-Opened handle slots raw slots' can h = elim (position-cases is_free slots) [
  | inl (e, _) ↦ absurd (not_ok (sym (rw (e, open_file_handle) refl) ∙ h))
  | inr (i, e, f) ↦
      go i f.item f.inside (All-get CanReopen slots i f.item can f.here)
        (sym (rw (e, f.here, open_file_handle) refl) ∙ h)
]
  where
    not_ok :
        ◌≡◌ {A = Result IpcError (ℕ × List FileHandleSlot)} (err vfs_no_space) (ok (raw, slots'))
        → ⊥
    not_ok e = cc

    go :
        (i : ℕ) (slot : FileHandleSlot)
        → i < length slots
        → CanReopen slot
        → ◌≡◌ {A = Result IpcError (ℕ × List FileHandleSlot)}
            (ok (
              raw_handle (next_generation slot.generation) i,
              set slots i
                  (record { generation = next_generation slot.generation; handle = some handle }),
            ))
            (ok (raw, slots'))
        → Opened handle slots raw slots'
    go i slot inside can_reopen e =
        let next : next_generation slot.generation ≡ slot.generation + 1 = ground arith in
        record {
          index = i;
          generation = next_generation slot.generation;
          inside = inside;
          raw_is = cc;
          slots_are = cc;
          positive = omega (arith, next);
          small = omega (arith, next);
        }

-- Where each of the 16 slots has a generation whose successor is below 2^56 and `open_file_handle`
-- succeeds, the raw handle that it returns reads back the handle that was opened.
pub file_handle-open_file_handle :
    (handle : FileHandle) (slots : List FileHandleSlot) (raw : ℕ) (slots' : List FileHandleSlot)
    → length slots ≡ max_file_handles
    → All CanReopen slots
    → open_file_handle handle slots ≡ ok (raw, slots')
    → (index : ℕ) × (file_handle raw slots' ≡ ok (index, handle))
unfolding file_handle handle_in
file_handle-open_file_handle handle slots raw slots' size can h =
    let o = open_file_handle-Opened handle slots raw slots' can h in
    let decoded : decode_file_handle (raw_handle o.generation o.index)
        ≡ ok (o.index, o.generation) =
      decode-raw_handle o.generation o.index o.positive o.small (omega (arith, o.inside)) in
    let stored : get_elem? slots' o.index
        ≡ some (record { generation = o.generation; handle = some handle }) =
      ap (λ (l : List FileHandleSlot). get_elem? l o.index) o.slots_are
      ∙ get_elem?-set_self slots o.index
          (record { generation = o.generation; handle = some handle }) o.inside in
    (
      o.index,
      ap (λ (r : ℕ). file_handle r slots') o.raw_is
          ∙ rw (decoded, stored, eq→== o.generation o.generation refl, file_handle, handle_in) refl,
    )

-- The slot that a handle was read from.
record Read (raw : ℕ) (slots : List FileHandleSlot) (index : ℕ) : Type 0 where
  generation : ℕ
  slot : FileHandleSlot
  decoded : decode_file_handle raw ≡ ok (index, generation)
  stored : get_elem? slots index ≡ some slot

file_handle-Read :
    (raw : ℕ) (slots : List FileHandleSlot) (index : ℕ) (handle : FileHandle)
    → file_handle raw slots ≡ ok (index, handle)
    → Read raw slots index
unfolding file_handle handle_in
file_handle-Read raw slots index handle h = go (decode_file_handle raw) refl
  where
    not_ok :
        ◌≡◌ {A = Result IpcError (ℕ × FileHandle)} (err vfs_bad_handle) (ok (index, handle)) → ⊥
    not_ok e = cc

    same_index :
        {i : ℕ} {f : FileHandle}
        → ◌≡◌ {A = Result IpcError (ℕ × FileHandle)} (ok (i, f)) (ok (index, handle))
        → i ≡ index
    same_index e = cc

    in_slot :
        (i generation : ℕ) (slot : FileHandleSlot)
        → handle_in slot i generation ≡ ok (index, handle)
        → i ≡ index
    in_slot i generation slot e = elim (Bool-cases (slot.generation == generation)) [
      | inr other ↦ absurd (not_ok (sym (rw (other, handle_in) refl) ∙ e))
      | inl same ↦ elim (Option-cases slot.handle) [
        | inl closed ↦ absurd (not_ok (sym (rw (same, closed, handle_in) refl) ∙ e))
        | inr (f, opened) ↦ same_index {f = f} (sym (rw (same, opened, handle_in) refl) ∙ e)
      ]
    ]

    go : (d : Result IpcError (ℕ × ℕ)) → decode_file_handle raw ≡ d → Read raw slots index
    go (err e) decoded = absurd (err_ok e (sym (rw (decoded, file_handle) refl) ∙ h))
      where
        err_ok :
            (e : IpcError)
            → ◌≡◌ {A = Result IpcError (ℕ × FileHandle)} (err e) (ok (index, handle))
            → ⊥
        err_ok e f = cc
    go (ok (i, generation)) decoded = elim (Option-cases (get_elem? slots i)) [
      | inl far ↦ absurd (not_ok (sym (rw (decoded, far, file_handle) refl) ∙ h))
      | inr (slot, stored) ↦
          let same = in_slot i generation slot (sym (rw (decoded, stored, file_handle) refl) ∙ h) in
          record {
            generation = generation;
            slot = slot;
            decoded = decoded ∙ ap (λ (n : ℕ). ok (n, generation)) same;
            stored = ap (get_elem? slots) (sym same) ∙ stored;
          }
    ]

handle_in-closed :
    (slot : FileHandleSlot) (index generation : ℕ)
    → handle_in (record slot { handle = none }) index generation ≡ err vfs_bad_handle
unfolding handle_in
handle_in-closed slot index generation = ground arith

file_handle-release_slot :
    (raw : ℕ) (slots : List FileHandleSlot) (index : ℕ)
    → Read raw slots index
    → file_handle raw (release_slot index slots) ≡ err vfs_bad_handle
unfolding file_handle release_slot
file_handle-release_slot raw slots index r =
    let written : get_elem? (set slots index (record (r.slot) { handle = none })) index
        ≡ some (record (r.slot) { handle = none }) =
      get_elem?-set_self slots index (record (r.slot) { handle = none })
        (get_elem?-lt slots index r.slot r.stored) in
    rw (r.decoded, r.stored, written, file_handle, release_slot)
      (handle_in-closed r.slot index r.generation)

-- Once `close_file_handle` has succeeded, the raw handle is refused with `VfsBadHandle`.
pub file_handle-close_file_handle :
    (raw : ℕ) (handle : FileHandle) (slots slots' : List FileHandleSlot)
    → close_file_handle raw slots ≡ ok (handle, slots')
    → file_handle raw slots' ≡ err vfs_bad_handle
unfolding close_file_handle
file_handle-close_file_handle raw handle slots slots' h = go (file_handle raw slots) refl
  where
    same_slots :
        {f : FileHandle} {l : List FileHandleSlot}
        → ◌≡◌ {A = Result IpcError (FileHandle × List FileHandleSlot)}
            (ok (f, l))
            (ok (handle, slots'))
        → l ≡ slots'
    same_slots e = cc

    err_ok :
        (e : IpcError)
        → ◌≡◌ {A = Result IpcError (FileHandle × List FileHandleSlot)} (err e) (ok (handle, slots'))
        → ⊥
    err_ok e f = cc

    go :
        (r : Result IpcError (ℕ × FileHandle))
        → file_handle raw slots ≡ r
        → file_handle raw slots' ≡ err vfs_bad_handle
    go (err e) read = absurd (err_ok e (sym (rw (read, close_file_handle) refl) ∙ h))
    go (ok (index, f)) read =
        let same = same_slots {f = f} (sym (rw (read, close_file_handle) refl) ∙ h) in
        subst (λ (l : List FileHandleSlot). file_handle raw l ≡ err vfs_bad_handle) same
          (file_handle-release_slot raw slots index (file_handle-Read raw slots index f read))
