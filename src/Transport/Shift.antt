-- ===== src/Transport/Shift.antt =====
-- The shifting loop of `remove_at` takes one entry out of the slots in use and keeps the order of
-- the others.
use vertex_os.Base.{
  ℕ, zero, suc, ◌+◌, ◌-◌, ◌≤◌, ◌<◌, ◌≡◌, refl, ap, sym, ◌∙◌, List, [], ◌∷◌, arith, length,
  get_elem?, set, take, length-set, inl, inr, Option-cases,
}
use vertex_os.Base.Search.{erase_at}
use vertex_os.Transport.{
  IpcMessage, MessageQueue, message_queue_capacity, empty_message, contents, copy_down, shift_down,
  removed_at,
}

-- A queue as every operation leaves it: an array of four slots, of which `len` are in use.
pub record IsQueue (q : MessageQueue) : Type 0 where
  pub slots : length q.messages ≡ message_queue_capacity
  pub within : q.len ≤ message_queue_capacity

length-copy_down : (i : ℕ) (xs : List IpcMessage) → length (copy_down i xs) ≡ length xs
length-copy_down i xs = elim (Option-cases (get_elem? xs (suc i))) [
  | inl e ↦ rw (e, length) refl
  | inr (m, e) ↦ rw (e, length) (length-set xs i m)
]

length-shift_down : (r i : ℕ) (xs : List IpcMessage) → length (shift_down r i xs) ≡ length xs
unfolding shift_down
length-shift_down zero i xs = refl
length-shift_down (suc r) i xs =
    length-shift_down r (suc i) (copy_down i xs) ∙ length-copy_down i xs

copy_down-cons :
    (i : ℕ) (x : IpcMessage) (xs : List IpcMessage)
    → copy_down (suc i) (x ∷ xs) ≡ x ∷ copy_down i xs
copy_down-cons i x xs = ground arith

-- The slots below the index stay.
shift_down-cons :
    (r i : ℕ) (x : IpcMessage) (xs : List IpcMessage)
    → shift_down r (suc i) (x ∷ xs) ≡ x ∷ shift_down r i xs
unfolding shift_down
shift_down-cons zero i x xs = refl
shift_down-cons (suc r) i x xs =
    ap (shift_down r (suc (suc i))) (copy_down-cons i x xs)
    ∙ shift_down-cons r (suc i) x (copy_down i xs)

take-shift_down_zero :
    (r : ℕ) (x : IpcMessage) (xs : List IpcMessage)
    → r ≤ length xs
    → take r (shift_down r 0 (x ∷ xs)) ≡ take r xs
unfolding shift_down
take-shift_down_zero zero x xs h = refl
take-shift_down_zero (suc r) x [] h = absurd (omega arith)
take-shift_down_zero (suc r) x (y ∷ ys) h =
    ap (take (suc r)) (shift_down-cons r 0 y (y ∷ ys))
    ∙ ap (◌∷◌ y) (take-shift_down_zero r y ys (omega arith))

take-shift_down :
    (i r n : ℕ) (xs : List IpcMessage)
    → n ≡ i + r
    → n < length xs
    → take n (shift_down r i xs) ≡ erase_at i (take (suc n) xs)
take-shift_down i r n [] e h = elim h [ ]
take-shift_down zero r n (x ∷ xs) e h =
    let all : n ≡ r = omega arith in rw all (take-shift_down_zero r x xs (omega arith))
take-shift_down (suc i) r zero (x ∷ xs) e h = absurd (omega arith)
take-shift_down (suc i) r (suc n) (x ∷ xs) e h =
    ap (take (suc n)) (shift_down-cons r i x xs)
    ∙ ap (◌∷◌ x) (take-shift_down i r n xs (omega arith) (omega arith))

take-set_at_end : (n : ℕ) (xs : List IpcMessage) (v : IpcMessage) → take n (set xs n v) ≡ take n xs
take-set_at_end zero xs v = refl
take-set_at_end (suc n) [] v = refl
take-set_at_end (suc n) (x ∷ xs) v = ap (◌∷◌ x) (take-set_at_end n xs v)

module _ (q : MessageQueue) (index : ℕ) (wf : IsQueue q) (used : index < q.len) where
  -- Of the slots in use the one at the index is gone, and the rest keep their order.
  pub contents-removed_at : contents (removed_at q index) ≡ erase_at index (contents q)
  unfolding removed_at
  contents-removed_at =
      let all : q.len ≡ suc (q.len - 1) = omega arith in
      take-set_at_end (q.len - 1) (shift_down (q.len - 1 - index) index q.messages) empty_message
      ∙ take-shift_down index (q.len - 1 - index) (q.len - 1) q.messages (omega arith)
          (omega (arith, wf.slots, wf.within))
      ∙ ap (λ (n : ℕ). erase_at index (take n q.messages)) (sym all)

  pub removed_at-IsQueue : IsQueue (removed_at q index)
  unfolding removed_at
  removed_at-IsQueue = record {
    slots =
        length-set (shift_down (q.len - 1 - index) index q.messages) (q.len - 1) empty_message
        ∙ length-shift_down (q.len - 1 - index) index q.messages
        ∙ wf.slots;
    within = omega (arith, wf.within);
  }
