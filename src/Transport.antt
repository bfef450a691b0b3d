-- ===== src/Transport.antt =====
-- The message queue of an endpoint: kernel/krust/src/kernel/transport.rs. A queue is the array of
-- its slots with the number of slots in use; the program's loops over `0..len` are recursions on
-- the slots in use, which `contents` names.
mod Shift
pub mod Fifo
pub mod Senders
mod Tests
use vertex_os.Base.{
  ℕ, zero, suc, ◌+◌, ◌-◌, ◌*◌, ◌^◌, ◌≡◌, Bool, true, false, not, ◌&&◌, Option, none, some, List, [],
  ◌∷◌, ◌++◌, Result, ok, err, ◌==◌, ltb, if◌then◌else◌, get_elem?, set, take, drop, replicate,
  position, any, bit_or,
}
use Prim.Native.String.{String}
use vertex_os.Ids.{
  ProcessId, KernelObjectId, no_process, IpcError, message_too_large, saturating_add,
}

abbrev pub max_message_bytes : ℕ
max_message_bytes = 512

abbrev pub message_queue_capacity : ℕ
message_queue_capacity = 4

pub record IpcMessage : Type 0 where
  pub sender : ProcessId
  pub len : ℕ
  pub bytes : List ℕ

-- `IpcMessage::empty()`
unfoldable pub empty_message : IpcMessage
empty_message = record { sender = no_process; len = 0; bytes = replicate max_message_bytes 0 }

-- The byte at an offset, moved up by k bytes.
byte_at : IpcMessage → ℕ → ℕ → ℕ
byte_at m offset k = elim (get_elem? m.bytes (offset + k)) [ none ↦ 0 | some b ↦ b * 256 ^ k ]

unfoldable pub u64_le_at : IpcMessage → ℕ → Option ℕ
unfolding byte_at
u64_le_at m offset =
    if ltb m.len (saturating_add offset 8)
    then none
    else some (
        bit_or
          (bit_or
            (bit_or
              (bit_or
                (bit_or
                  (bit_or (bit_or (byte_at m offset 0) (byte_at m offset 1)) (byte_at m offset 2))
                  (byte_at m offset 3))
                (byte_at m offset 4))
              (byte_at m offset 5))
            (byte_at m offset 6))
          (byte_at m offset 7))

pub record MessageQueue : Type 0 where
  pub messages : List IpcMessage
  pub len : ℕ

-- `MessageQueue::empty()`
unfoldable pub empty_queue : MessageQueue
empty_queue = record { messages = replicate message_queue_capacity empty_message; len = 0 }

-- The slots in use, `self.messages[..self.len]`.
abbrev pub contents : MessageQueue → List IpcMessage
contents q = take q.len q.messages

-- The message that `enqueue` builds. A length above 512 panics in the program, so that its callers
-- bound it; here it would copy all of `bytes`.
unfoldable pub new_message : ProcessId → List ℕ → ℕ → IpcMessage
unfolding empty_message
new_message sender bytes len = record {
  sender = sender;
  len = len;
  bytes = take len bytes ++ drop len empty_message.bytes;
}

unfoldable pub enqueue : ProcessId → List ℕ → ℕ → MessageQueue → Result IpcError MessageQueue
enqueue sender bytes len q =
    if q.len == message_queue_capacity
    then err message_too_large
    else ok (record q {
      messages = set q.messages q.len (new_message sender bytes len);
      len = q.len + 1;
    })

-- `self.messages[shift] = self.messages[shift + 1]`
abbrev pub copy_down : ℕ → List IpcMessage → List IpcMessage
copy_down shift messages = elim (get_elem? messages (suc shift)) [
  | none ↦ messages
  | some m ↦ set messages shift m
]

-- The loop of `remove_at`, by the number of its rounds.
unfoldable pub shift_down : ℕ → ℕ → List IpcMessage → List IpcMessage
shift_down zero shift messages = messages
shift_down (suc rounds) shift messages = shift_down rounds (suc shift) (copy_down shift messages)

-- The queue that `remove_at` leaves; it is called at an index below `len`.
unfoldable pub removed_at : MessageQueue → ℕ → MessageQueue
unfolding shift_down
removed_at q index = record {
  messages = set (shift_down (q.len - 1 - index) index q.messages) (q.len - 1) empty_message;
  len = q.len - 1;
}

unfoldable pub remove_at : MessageQueue → ℕ → Option IpcMessage × MessageQueue
unfolding removed_at
remove_at q index = (get_elem? q.messages index, removed_at q index)

-- The loop that removes the first message that passes a test.
unfoldable pub dequeue_where : (IpcMessage → Bool) → MessageQueue → Option IpcMessage × MessageQueue
unfolding remove_at
dequeue_where test q = elim (position test (contents q)) [
  | none ↦ (none, q)
  | some index ↦ remove_at q index
]

-- `messages[index].sender != receiver`
abbrev pub is_for : ProcessId → IpcMessage → Bool
is_for receiver m = not (m.sender == receiver)

-- `messages[index].u64_le_at(0) == Some(transaction_id)`
unfoldable pub has_transaction : ℕ → IpcMessage → Bool
unfolding u64_le_at
has_transaction transaction_id m = elim (u64_le_at m 0) [
  | none ↦ false
  | some id ↦ id == transaction_id
]

unfoldable pub has_message_for : ProcessId → MessageQueue → Bool
has_message_for receiver q = any (is_for receiver) (contents q)

unfoldable pub dequeue_for : ProcessId → MessageQueue → Option IpcMessage × MessageQueue
unfolding dequeue_where
dequeue_for receiver q = dequeue_where (is_for receiver) q

abbrev pub is_reply_for : ProcessId → ℕ → IpcMessage → Bool
is_reply_for receiver transaction_id m = is_for receiver m && has_transaction transaction_id m

unfoldable pub has_transaction_reply_for : ProcessId → ℕ → MessageQueue → Bool
has_transaction_reply_for receiver transaction_id q =
    any (is_reply_for receiver transaction_id) (contents q)

unfoldable pub dequeue_transaction_reply_for :
    ProcessId → ℕ → MessageQueue → Option IpcMessage × MessageQueue
unfolding dequeue_where
dequeue_transaction_reply_for receiver transaction_id q =
    dequeue_where (is_reply_for receiver transaction_id) q

abbrev pub is_request_of : ProcessId → ℕ → IpcMessage → Bool
is_request_of sender transaction_id m = m.sender == sender && has_transaction transaction_id m

unfoldable pub remove_transaction_from_sender : ProcessId → ℕ → MessageQueue → Bool × MessageQueue
unfolding removed_at
remove_transaction_from_sender sender transaction_id q =
    elim (position (is_request_of sender transaction_id) (contents q)) [
      | none ↦ (false, q)
      | some index ↦ (true, removed_at q index)
    ]

-- The loop of `remove_all_from_sender`. A round either removes a message or moves on, so that the
-- rounds are as many as the messages that the queue held at first.
unfoldable pub remove_all_loop : ProcessId → ℕ → ℕ → ℕ → MessageQueue → ℕ × MessageQueue
remove_all_loop sender zero index removed q = (removed, q)
remove_all_loop sender (suc rounds) index removed q = elim (get_elem? (contents q) index) [
  | none ↦ (removed, q)
  | some m ↦
      if m.sender == sender
      then remove_all_loop sender rounds index (removed + 1) (removed_at q index)
      else remove_all_loop sender rounds (index + 1) removed q
]

unfoldable pub remove_all_from_sender : ProcessId → MessageQueue → ℕ × MessageQueue
unfolding remove_all_loop
remove_all_from_sender sender q = remove_all_loop sender q.len 0 0 q

unfoldable pub dequeue_fifo : MessageQueue → Option IpcMessage × MessageQueue
unfolding remove_at
dequeue_fifo q = if q.len == 0 then (none, q) else remove_at q 0

pub record IpcEndpoint : Type 0 where
  pub id : KernelObjectId
  pub name : String
  pub owner : ProcessId
  pub queue : MessageQueue

-- `IpcEndpoint::new`
unfoldable pub new_endpoint : KernelObjectId → String → ProcessId → IpcEndpoint
unfolding empty_queue
new_endpoint id name owner = record { id = id; name = name; owner = owner; queue = empty_queue }
