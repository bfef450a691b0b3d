-- ===== src/Arena/Heap.antt =====
-- What the kernel heap hands out: KernelHeap::alloc of kernel/krust/src/arena.rs.
use vertex_os.Base.{
  ℕ, ◌+◌, ◌-◌, ◌%◌, ◌≤◌, ◌<◌, ◌≡◌, ◌∙◌, refl, sym, ap, inl, inr, Option, none, some, ◌==◌, ==→eq,
  Bool-cases, arith,
}
use native.Mathlib.Nat.{mod-lt, mod_self, mod-add-mod}
use vertex_os.Ids.{u64_max, saturating_add}
use vertex_os.Arena.{KernelHeap, aligned_up, at_least_one, is_past_end, heap_alloc}

-- The next multiple, where it is a word.
aligned_up-multiple :
    (value align : ℕ)
    → 0 < align
    → aligned_up value align < u64_max
    → (value ≤ aligned_up value align) × (aligned_up value align % align ≡ 0)
unfolding aligned_up
aligned_up-multiple value align positive small = elim (Bool-cases (value % align == 0)) [
  | inl e ↦ rw (e, aligned_up) (omega arith, ==→eq (value % align) 0 e)
  | inr e ↦ rw (e, aligned_up) (go (sym (rw (e, aligned_up) refl)))
]
  where
    padding : ℕ
    padding = align - value % align

    rounded : (value + padding) % align ≡ 0
    rounded =
        let whole : value % align + padding ≡ align = omega (arith, mod-lt value positive) in
        sym (mod-add-mod value align padding) ∙ (ap (λ (n : ℕ). n % align) whole ∙ mod_self align)

    go :
        saturating_add value padding ≡ aligned_up value align
        → (value ≤ saturating_add value padding) × (saturating_add value padding % align ≡ 0)
    go e =
        let exact : saturating_add value padding ≡ value + padding = ground (arith, e) in
        (omega (arith, exact), ap (λ (n : ℕ). n % align) exact ∙ rounded)

-- A request to a heap whose end lies below the largest word, if it succeeds, returns a start
-- that is not below the next free address and is a multiple of the alignment (or of 1), moves
-- the next free address to the end of the block, which is within the heap, and keeps the heap's
-- bounds.
pub heap_alloc_within :
    (bytes align start : ℕ) (h h' : KernelHeap)
    → h.base + h.length < u64_max
    → heap_alloc bytes align h ≡ (some start, h')
    → (h.next ≤ start)
      × (start % at_least_one align ≡ 0)
      × (start + bytes ≡ h'.next)
      × (h'.next ≤ h.base + h.length)
      × ((h'.base ≡ h.base) × (h'.length ≡ h.length))
unfolding heap_alloc
heap_alloc_within bytes align start h h' small e =
    elim (Bool-cases (is_past_end (aligned_up h.next (at_least_one align) + bytes) h)) [
      | inl past ↦ absurd (none_some (sym (rw (past, heap_alloc) refl) ∙ e))
      | inr inside ↦
          go (sym (rw (inside, heap_alloc) refl) ∙ e) (ground (arith, inside)) (
            aligned_up-multiple h.next (at_least_one align) (ground arith) (ground (arith, inside)))
    ]
  where
    none_some : ◌≡◌ {A = Option ℕ × KernelHeap} (none, h) (some start, h') → ⊥
    none_some f = cc

    go :
        {at : ℕ}
        → ◌≡◌ {A = Option ℕ × KernelHeap} (some at, record h { next = at + bytes }) (some start, h')
        → at + bytes ≤ h.base + h.length
        → (h.next ≤ at) × (at % at_least_one align ≡ 0)
        → (h.next ≤ start)
          × (start % at_least_one align ≡ 0)
          × (start + bytes ≡ h'.next)
          × (h'.next ≤ h.base + h.length)
          × ((h'.base ≡ h.base) × (h'.length ≡ h.length))
    go {at} f fits (above, multiple) =
        let same : at ≡ start = cc in
        let moved : at + bytes ≡ h'.next = ap (λ (r : Option ℕ × KernelHeap). r.1.next) f in
        (
          omega arith,
          ap (λ (n : ℕ). n % at_least_one align) (sym same) ∙ multiple,
          omega arith,
          omega arith,
          (
            sym (ap (λ (r : Option ℕ × KernelHeap). r.1.base) f),
            sym (ap (λ (r : Option ℕ × KernelHeap). r.1.length) f),
          ),
        )
