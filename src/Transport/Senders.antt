-- ===== src/Transport/Senders.antt =====
-- `remove_all_from_sender` of transport.rs: the messages of one sender leave, the rest stay in order.
use mathlib.Core.List.{append_assoc}
use vertex_os.Base.{
  ℕ, zero, suc, ◌+◌, ◌<◌, ◌≡◌, refl, sym, ap, ◌∙◌, inl, inr, some, List, [], ◌∷◌, ◌++◌, arith, ◌==◌,
  length, get_elem?, keep, length-append, Bool-cases,
}
use vertex_os.Base.Search.{erase_at}
use vertex_os.Ids.{ProcessId}
use vertex_os.Transport.{
  IpcMessage, MessageQueue, contents, is_for, removed_at, remove_all_loop, remove_all_from_sender,
}
use vertex_os.Transport.Shift.{IsQueue, contents-removed_at, removed_at-IsQueue}
use vertex_os.Transport.Fifo.{length-contents}

get_elem?-middle :
    (xs : List IpcMessage) (m : IpcMessage) (ys : List IpcMessage)
    → get_elem? (xs ++ m ∷ ys) (length xs) ≡ some m
get_elem?-middle [] m ys = refl
get_elem?-middle (x ∷ xs) m ys = get_elem?-middle xs m ys

erase_at-middle :
    (xs : List IpcMessage) (m : IpcMessage) (ys : List IpcMessage)
    → erase_at (length xs) (xs ++ m ∷ ys) ≡ xs ++ ys
erase_at-middle [] m ys = refl
erase_at-middle (x ∷ xs) m ys = ap (◌∷◌ x) (erase_at-middle xs m ys)

-- What the loop has to do once `done` is behind it and `todo` is ahead.
record Sweeps (sender : ProcessId) (removed : ℕ) (done todo : List IpcMessage)
    (r : ℕ × MessageQueue) : Type 0 where
  well_formed : IsQueue r.1
  kept : contents r.1 ≡ done ++ keep (is_for sender) todo
  counted : r.0 + length (keep (is_for sender) todo) ≡ removed + length todo

module _ (sender : ProcessId) where
  remove_all_loop-Sweeps :
      (rounds removed : ℕ) (q : MessageQueue) (done todo : List IpcMessage)
      → IsQueue q
      → contents q ≡ done ++ todo
      → length todo ≡ rounds
      → Sweeps sender removed done todo (remove_all_loop sender rounds (length done) removed q)
  unfolding remove_all_loop
  remove_all_loop-Sweeps zero removed q done [] wf e n = record {
    well_formed = wf;
    kept = e;
    counted = refl;
  }
  remove_all_loop-Sweeps zero removed q done (m ∷ todo) wf e n = absurd (omega arith)
  remove_all_loop-Sweeps (suc rounds) removed q done [] wf e n = absurd (omega arith)
  remove_all_loop-Sweeps (suc rounds) removed q done (m ∷ todo) wf e n =
      elim (Bool-cases (m.sender == sender)) [
        | inl its_own ↦
            let rest =
              remove_all_loop-Sweeps rounds (removed + 1) (removed_at q (length done)) done todo
                (removed_at-IsQueue q (length done) wf inside)
                (contents-removed_at q (length done) wf inside
                  ∙ ap (erase_at (length done)) e
                  ∙ erase_at-middle done m todo)
                (omega arith) in
            rw (here, its_own, remove_all_loop)
              (record {
                well_formed = rest.well_formed;
                kept = rw (its_own, keep) rest.kept;
                counted = rw (its_own, keep) (omega (arith, rest.counted));
              })
        | inr other ↦
            let rest = rw next at (
              remove_all_loop-Sweeps rounds removed q (done ++ m ∷ []) todo wf
                (e ∙ sym (append_assoc done (m ∷ []) todo)) (omega arith)) in
            rw (here, other, remove_all_loop)
              (record {
                well_formed = rest.well_formed;
                kept =
                    rw (other, keep)
                      (rest.kept ∙ append_assoc done (m ∷ []) (keep (is_for sender) todo));
                counted = rw (other, keep) (omega (arith, rest.counted));
              })
      ]
    where
      here : get_elem? (contents q) (length done) ≡ some m
      here =
          ap (λ (xs : List IpcMessage). get_elem? xs (length done)) e ∙ get_elem?-middle done m todo

      inside : length done < q.len
      inside = omega (
        arith,
        ap (length {A = IpcMessage}) e,
        length-append done (m ∷ todo),
        length-contents q wf,
      )

      next : length (done ++ m ∷ []) ≡ length done + 1
      next = omega (arith, length-append done (m ∷ []))

-- On a well-formed queue `remove_all_from_sender` keeps the messages of the other senders, in order,
-- and keeps the queue well formed; the number returned is that of the messages that left.
pub remove_all_from_sender-keeps :
    (sender : ProcessId) (q : MessageQueue)
    → IsQueue q
    → let (removed, q') = remove_all_from_sender sender q in
      IsQueue q'
      × (contents q' ≡ keep (is_for sender) (contents q))
      × (removed + length (contents q') ≡ length (contents q))
unfolding remove_all_from_sender
remove_all_from_sender-keeps sender q wf =
    let s =
      remove_all_loop-Sweeps sender q.len 0 q [] (contents q) wf refl (length-contents q wf) in
    (s.well_formed, s.kept, omega (arith, s.counted, ap (length {A = IpcMessage}) s.kept))
