-- ===== src/Qos/Queue.antt =====
-- `QueueItem` and `QosQueue` of daemon/fw/ndn-qos-queue.hpp and ndn-qos-queue.cpp. A block is its
-- octets; faces and PIT entries are named by numbers, and a null pointer is `none`.
use nfd_qo_s.Base.{
  ℕ, ◌≤◌, Bool, true, false, Option, none, List, [], ◌∷◌, ◌++◌, ltb, if◌then◌else◌, length, null,
}
use nfd_qo_s.Qos.Float.{Float}

pub data QosPacketType : Type 0 where
  invalid interest content nack : QosPacketType

pub record QueueItem : Type 0 where
  pub wire_encode : List ℕ
  pub packet_type : QosPacketType
  pub pit_entry : Option ℕ
  pub inface : Option ℕ
  pub outface : Option ℕ

-- The default constructor.
abbrev pub empty_item : QueueItem
empty_item = record {
  wire_encode = [];
  packet_type = invalid;
  pit_entry = none;
  inface = none;
  outface = none;
}

pub record QosQueue (F : Type 0) : Type 0 where
  pub max_queue_size : ℕ
  pub weight : F
  pub last_virtual_finish_time : ℕ
  pub queue : List QueueItem

-- `QUEUE_SIZE`
abbrev pub queue_size : ℕ
queue_size = 10

abbrev pub new_queue : (f : Float) → QosQueue f.Carrier
new_queue f = record {
  max_queue_size = queue_size;
  weight = f.of_nat 0;
  last_virtual_finish_time = 0;
  queue = [];
}

module _ {F : Type 0} where
  abbrev pub set_weight : F → QosQueue F → QosQueue F
  set_weight w q = record q { weight = w }

  abbrev pub set_last_virtual_finish_time : ℕ → QosQueue F → QosQueue F
  set_last_virtual_finish_time t q = record q { last_virtual_finish_time = t }

  -- The queue afterwards, and whether the item was taken.
  unfoldable pub enqueue : QueueItem → QosQueue F → QosQueue F × Bool
  enqueue item q =
      if ltb (length q.queue) q.max_queue_size
      then (record q { queue = q.queue ++ item ∷ [] }, true)
      else (q, false)

  take_front : QosQueue F → List QueueItem → QueueItem × QosQueue F
  take_front q [] = (empty_item, q)
  take_front q (item ∷ rest) = (item, record q { queue = rest })

  -- On an empty queue the result is a default-constructed item.
  unfoldable pub dequeue : QosQueue F → QueueItem × QosQueue F
  unfolding take_front
  dequeue q = take_front q q.queue

  unfoldable pub is_empty : QosQueue F → Bool
  is_empty q = null q.queue

  abbrev pub IsBounded : QosQueue F → Type 0
  IsBounded q = length q.queue ≤ q.max_queue_size
