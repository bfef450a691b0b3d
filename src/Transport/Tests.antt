-- ===== src/Transport/Tests.antt =====
-- A queue that holds a message of process 1 and one of process 2.
use vertex_os.Base.{◌≡◌, ◌⊎◌, refl, some, [], ◌∷◌, ◌++◌, ◌+◌, ok, err, length, keep, is_some, arith}
use vertex_os.Ids.{message_too_large}
use vertex_os.Transport.{
  IpcMessage, empty_message, MessageQueue, message_queue_capacity, contents, new_message, enqueue,
  dequeue_for, is_for, has_message_for, dequeue_fifo, remove_all_from_sender,
}
use vertex_os.Transport.Shift.{IsQueue}
use vertex_os.Transport.Fifo.{enqueue-appends, Receives, dequeue_for-Receives, dequeue_fifo_oldest}
use vertex_os.Transport.Senders.{remove_all_from_sender-keeps}

abbrev first_message : IpcMessage
first_message = record { sender = 1; len = 8; bytes = 5 ∷ 0 ∷ 0 ∷ 0 ∷ 0 ∷ 0 ∷ 0 ∷ 0 ∷ [] }

abbrev second_message : IpcMessage
second_message = record { sender = 2; len = 8; bytes = 6 ∷ 0 ∷ 0 ∷ 0 ∷ 0 ∷ 0 ∷ 0 ∷ 0 ∷ [] }

abbrev two_messages : MessageQueue
two_messages = record {
  messages = first_message ∷ second_message ∷ empty_message ∷ empty_message ∷ [];
  len = 2;
}

two_messages-IsQueue : IsQueue two_messages
two_messages-IsQueue = record { slots = omega arith; within = omega arith }

enqueue-appends_example :
    ((length (contents two_messages) ≡ message_queue_capacity)
      × (enqueue 3 (7 ∷ []) 1 two_messages ≡ err message_too_large))
    ⊎ ((q : MessageQueue) × (enqueue 3 (7 ∷ []) 1 two_messages ≡ ok q)
        × IsQueue q
        × (contents q ≡ contents two_messages ++ new_message 3 (7 ∷ []) 1 ∷ []))
enqueue-appends_example = enqueue-appends 3 (7 ∷ []) 1 two_messages two_messages-IsQueue

dequeue_for-Receives_example :
    Receives (is_for 1) two_messages (dequeue_for 1 two_messages)
    × (has_message_for 1 two_messages ≡ is_some (dequeue_for 1 two_messages).0)
dequeue_for-Receives_example = dequeue_for-Receives 1 two_messages two_messages-IsQueue

dequeue_fifo_oldest_example :
    ((dequeue_fifo two_messages).0 ≡ some first_message)
    × (contents (dequeue_fifo two_messages).1 ≡ second_message ∷ [])
dequeue_fifo_oldest_example =
    dequeue_fifo_oldest two_messages first_message (second_message ∷ []) two_messages-IsQueue refl

remove_all_from_sender-keeps_example :
    IsQueue (remove_all_from_sender 1 two_messages).1
    × (contents (remove_all_from_sender 1 two_messages).1 ≡ keep (is_for 1) (contents two_messages))
    × ((remove_all_from_sender 1 two_messages).0
          + length (contents (remove_all_from_sender 1 two_messages).1)
        ≡ length (contents two_messages))
remove_all_from_sender-keeps_example =
    remove_all_from_sender-keeps 1 two_messages two_messages-IsQueue
