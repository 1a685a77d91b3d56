-- ===== src/Cs/PriorityFifo.antt =====
-- `PriorityFifoPolicy` of daemon/table/cs-policy-priority-fifo.cpp. The scheduled event of an
-- entry, which moves it to the stale queue, is there exactly while the entry's queue is the FIFO
-- one, so its expiry is the call of `move_to_stale_queue`. An iterator into a queue is where its
-- entry stands.
pub mod Laws
use nfd_qo_s.Base.{ℕ, Option, none, some, List, [], ◌∷◌, ◌++◌, ◌==◌, if◌then◌else◌, ◌>>=◌}
use nfd_qo_s.Base.Occurs.{erase}
use nfd_qo_s.Base.Assoc.{lookup}
use nfd_qo_s.Cs.Policy.{Seen, Policy}

pub data QueueType : Type 0 where
  queue_unsolicited : QueueType
  queue_stale : QueueType
  queue_fifo : QueueType

-- `infos` is `m_entryInfoMap`.
pub record PriorityFifo : Type 0 where
  pub unsolicited : List ℕ
  pub stale : List ℕ
  pub fifo : List ℕ
  pub infos : List (ℕ × QueueType)

abbrev pub no_queues : PriorityFifo
no_queues = record { unsolicited = []; stale = []; fifo = []; infos = [] }

-- `m_entryInfoMap.erase(i)`
pub forget : ℕ → List (ℕ × QueueType) → List (ℕ × QueueType)
forget i [] = []
forget i ((j, t) ∷ m) = let rest = forget i m in if j == i then rest else (j, t) ∷ rest

-- `Queue::erase` of the entry's place, in the queue of its type
abbrev pub leave_queue : QueueType → ℕ → PriorityFifo → PriorityFifo
leave_queue queue_unsolicited i s = record s { unsolicited = erase i s.unsolicited }
leave_queue queue_stale i s = record s { stale = erase i s.stale }
leave_queue queue_fifo i s = record s { fifo = erase i s.fifo }

-- `queue.insert(queue.end(), i)`
abbrev pub join_queue : QueueType → ℕ → PriorityFifo → PriorityFifo
join_queue queue_unsolicited i s = record s { unsolicited = s.unsolicited ++ i ∷ [] }
join_queue queue_stale i s = record s { stale = s.stale ++ i ∷ [] }
join_queue queue_fifo i s = record s { fifo = s.fifo ++ i ∷ [] }

abbrev pub queue_for : Seen → QueueType
queue_for e =
    if e.unsolicited then queue_unsolicited else if e.stale then queue_stale else queue_fifo

pub attach_queue : Seen → PriorityFifo → Option PriorityFifo
attach_queue e s = elim (lookup e.handle s.infos) [
  | some t ↦ none
  | none ↦
      let t = queue_for e in
      some (join_queue t e.handle (record s { infos = (e.handle, t) ∷ s.infos }))
]

pub detach_queue : ℕ → PriorityFifo → Option PriorityFifo
unfolding forget
detach_queue i s = elim (lookup i s.infos) [
  | none ↦ none
  | some t ↦ some (leave_queue t i (record s { infos = forget i s.infos }))
]

abbrev pub front_of : List ℕ → List ℕ → List ℕ → Option ℕ
front_of (i ∷ unsolicited) stale fifo = some i
front_of [] (i ∷ stale) fifo = some i
front_of [] [] (i ∷ fifo) = some i
front_of [] [] [] = none

pub evict_front : PriorityFifo → Option (ℕ × PriorityFifo)
evict_front s = do i ← front_of s.unsolicited s.stale s.fifo; s' ← detach_queue i s; some (i, s')

-- `moveToStaleQueue`
unfoldable pub move_to_stale_queue : ℕ → PriorityFifo → Option PriorityFifo
move_to_stale_queue i s = elim (lookup i s.infos) [
  | some queue_fifo ↦ some (
      join_queue queue_stale i
        (leave_queue queue_fifo i (record s { infos = (i, queue_stale) ∷ forget i s.infos })))
  | _ ↦ none
]

pub check_known : ℕ → PriorityFifo → Option PriorityFifo
check_known i s = elim (lookup i s.infos) [ none ↦ none | some t ↦ some s ]

unfoldable pub priority_fifo : Policy
priority_fifo = record {
  State = PriorityFifo;
  start = no_queues;
  handles = λ s. s.unsolicited ++ s.stale ++ s.fifo;
  attach = attach_queue;
  refresh = λ e s. detach_queue e.handle s >>= attach_queue e;
  detach = detach_queue;
  use_entry = check_known;
  evict_one = evict_front;
}
