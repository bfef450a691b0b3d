-- ===== src/Transport/Fifo.antt =====
-- The queue of transport.rs against a list: a send appends, a receive takes the first message that
-- the receiver may have, and the other messages keep their order.
use vertex_os.Base.{
  ℕ, suc, ◌+◌, ◌<◌, ◌≡◌, refl, ap, ◌∙◌, ◌⊎◌, inl, inr, Bool, true, false, Option, none, some, List,
  [], ◌∷◌, ◌++◌, ok, err, arith, ◌==◌, length, get_elem?, set, any, is_some, length-set,
  length-replicate, length-take, take-set_end, Bool-cases, ==→eq,
}
use vertex_os.Base.Search.{Fails, position-cases, get_elem?-take, erase_at}
use vertex_os.Ids.{ProcessId, message_too_large}
use vertex_os.Transport.{
  IpcMessage, MessageQueue, message_queue_capacity, empty_message, empty_queue, contents,
  new_message, enqueue, is_for, removed_at, remove_at, dequeue_where, has_message_for, dequeue_for,
  dequeue_fifo,
}
use vertex_os.Transport.Shift.{IsQueue, contents-removed_at, removed_at-IsQueue}

pub empty_queue-IsQueue : IsQueue empty_queue
unfolding empty_queue
empty_queue-IsQueue = record {
  slots = length-replicate message_queue_capacity empty_message;
  within = omega arith;
}

pub length-contents : (q : MessageQueue) → IsQueue q → length (contents q) ≡ q.len
length-contents q wf = omega (arith, length-take q.len q.messages, wf.slots, wf.within)

-- On a well-formed queue a send is refused where the queue is full, and otherwise appends its message
-- and keeps the queue well formed.
pub enqueue-appends :
    (sender : ProcessId) (bytes : List ℕ) (len : ℕ) (q : MessageQueue)
    → IsQueue q
    → ((length (contents q) ≡ message_queue_capacity)
        × (enqueue sender bytes len q ≡ err message_too_large))
      ⊎ ((q' : MessageQueue) × (enqueue sender bytes len q ≡ ok q')
          × IsQueue q'
          × (contents q' ≡ contents q ++ new_message sender bytes len ∷ []))
unfolding enqueue
enqueue-appends sender bytes len q wf = elim (Bool-cases (q.len == message_queue_capacity)) [
  | inl full ↦ inl (length-contents q wf ∙ ==→eq _ _ full, rw full)
  | inr room ↦ inr (after, rw room, after-IsQueue (ground arith), appended (ground arith))
]
  where
    after : MessageQueue
    after = record q {
      messages = set q.messages q.len (new_message sender bytes len);
      len = q.len + 1;
    }

    after-IsQueue : q.len < message_queue_capacity → IsQueue after
    after-IsQueue h = record {
      slots = length-set q.messages q.len (new_message sender bytes len) ∙ wf.slots;
      within = omega arith;
    }

    appended :
        q.len < message_queue_capacity
        → contents after ≡ contents q ++ new_message sender bytes len ∷ []
    appended h =
        let one_more : q.len + 1 ≡ suc q.len = omega arith in
        rw one_more
          (take-set_end q.messages q.len (new_message sender bytes len) (omega (arith, wf.slots)))

-- What a receive by a test does to a queue: nothing where no message passes, and otherwise it takes
-- the first that does.
pub data Receives (test : IpcMessage → Bool) (q : MessageQueue)
    : Option IpcMessage × MessageQueue → Type 0 where
  nothing : Fails test (contents q) → Receives test q (none, q)
  first :
      (before after : List IpcMessage) (m : IpcMessage) (q' : MessageQueue)
      → contents q ≡ before ++ m ∷ after
      → Fails test before
      → test m ≡ true
      → contents q' ≡ before ++ after
      → IsQueue q'
      → Receives test q (some m, q')

dequeue_where-Receives :
    (test : IpcMessage → Bool) (q : MessageQueue)
    → IsQueue q
    → Receives test q (dequeue_where test q)
unfolding dequeue_where
dequeue_where-Receives test q wf = elim (position-cases test (contents q)) [
  | inl (e, fails) ↦ rw (e, dequeue_where) (nothing fails)
  | inr (i, e, f) ↦
      rw (e, dequeue_where, get_elem?-take q.len q.messages i f.here)
        (first f.before f.after f.item (removed_at q i) f.whole f.first f.passes
          (contents-removed_at q i wf (omega (arith, f.inside, length-contents q wf)) ∙ f.rest)
          (removed_at-IsQueue q i wf (omega (arith, f.inside, length-contents q wf))))
]

any-Fails : (test : IpcMessage → Bool) (xs : List IpcMessage) → Fails test xs → any test xs ≡ false
any-Fails test [] h = refl
any-Fails test (x ∷ xs) h = rw h.0 (any-Fails test xs h.1)

any-middle :
    (test : IpcMessage → Bool) (xs : List IpcMessage) (m : IpcMessage) (ys : List IpcMessage)
    → test m ≡ true
    → any test (xs ++ m ∷ ys) ≡ true
any-middle test [] m ys h = rw h
any-middle test (x ∷ xs) m ys h = ground (arith, any-middle test xs m ys h)

any-Receives :
    (test : IpcMessage → Bool) (q : MessageQueue) {r : Option IpcMessage × MessageQueue}
    → Receives test q r
    → any test (contents q) ≡ is_some r.0
any-Receives test q (nothing fails) = any-Fails test (contents q) fails
any-Receives test q (first before after m q' whole fails passes rest wf) =
    ap (any test) whole ∙ any-middle test before m after passes

-- On a well-formed queue `dequeue_for` leaves the queue where every message in use is of the receiver,
-- and otherwise takes the oldest message of another sender and keeps the others in order; and
-- `has_message_for` tells which of the two it is.
pub dequeue_for-Receives :
    (receiver : ProcessId) (q : MessageQueue)
    → IsQueue q
    → Receives (is_for receiver) q (dequeue_for receiver q)
      × (has_message_for receiver q ≡ is_some (dequeue_for receiver q).0)
unfolding dequeue_for has_message_for
dequeue_for-Receives receiver q wf = (
  dequeue_where-Receives (is_for receiver) q wf,
  any-Receives (is_for receiver) q (dequeue_where-Receives (is_for receiver) q wf),
)

-- On a well-formed queue that is not empty `dequeue_fifo` takes the oldest message and keeps the rest.
pub dequeue_fifo_oldest :
    (q : MessageQueue) (m : IpcMessage) (rest : List IpcMessage)
    → IsQueue q
    → contents q ≡ m ∷ rest
    → ((dequeue_fifo q).0 ≡ some m) × (contents (dequeue_fifo q).1 ≡ rest)
unfolding dequeue_fifo remove_at
dequeue_fifo_oldest q m rest wf e =
    let used : 0 < q.len = omega (arith, ap (length {A = IpcMessage}) e, length-contents q wf) in
    let busy : (q.len == 0) ≡ false = ground arith in
    rw busy (
      get_elem?-take q.len q.messages 0 (ap (λ (xs : List IpcMessage). get_elem? xs 0) e),
      contents-removed_at q 0 wf used ∙ ap (erase_at 0) e,
    )
