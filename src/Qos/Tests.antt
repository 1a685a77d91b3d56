-- ===== src/Qos/Tests.antt =====
-- Runs of the QoS queues and buckets on small inputs, over a `float` that is a number.
use nfd_qo_s.Base.{
  ℕ, zero, suc, ◌+◌, ◌-◌, ◌*◌, ◌/◌, ◌%◌, ◌^◌, ◌<◌, ◌≡◌, refl, true, false, Option, none, some, List,
  [], ◌∷◌, arith, ltb, lt→ltb,
}
use nfd_qo_s.Base.Int.{pos}
use nfd_qo_s.Qos.Float.{Float, IsFloat}
use nfd_qo_s.Qos.Queue.{interest, QueueItem, QosQueue}
use nfd_qo_s.Qos.Bucket.{TokenBucket, new_bucket, add_token, tokens_at}
use nfd_qo_s.Qos.TxQueue.{TxQueue, select_queue_to_send, all_empty, token_req}
use nfd_qo_s.Qos.TxQueue.Levels.{contents, IsValid}
use nfd_qo_s.Qos.TxQueue.Enqueue.{accepts, Enqueued, do_enqueue_lem}
use nfd_qo_s.Qos.Send.AllFaces.{IsServable, Sends, priority_send-Sends}
use nfd_qo_s.Base.Assoc.{lookup, lookup_or, insert}
use nfd_qo_s.Qos.Bucket.Tokens.{add_token_lem, HasRoom, add_consume-HasRoom}
use nfd_qo_s.Qos.TxQueue.Choice.{ready, finish_time, IsEarliest, select_queue_to_send_lem}
use nfd_qo_s.Qos.Send.{has_faces, Drained, drain, Pass, priority_send}
use nfd_qo_s.Qos.Send.Starvation.{priority_send_starves}
use nfd_qo_s.Qos.Send.Drain.{Drains}
use nfd_qo_s.Qos.Send.Rounds.{AllSendable, drain-Drains}
use nfd_qo_s.Table.Pit.{OutRecord}
use nfd_qo_s.Qos.Stats.{
  Rates, interest_prefix, FaceStats, find_stats, before_expire_pending_interest,
}
use nfd_qo_s.Qos.Stats.Prefixes.{before_expire-interest_prefix}

abbrev pub whole : Float
whole = record {
  Carrier = ℕ;
  of_nat = λ n. n;
  add = ◌+◌;
  sub = ◌-◌;
  mul = ◌*◌;
  div = ◌/◌;
  lt = ltb;
  max_value = 2 ^ 64;
  to_u64 = λ n. n % 2 ^ 64;
}

whole_irrefl : (a : ℕ) → ltb a a ≡ false
whole_irrefl a = ground arith

whole_asymm : (a b : ℕ) → ltb a b ≡ true → ltb b a ≡ false
whole_asymm a b h = ground arith

whole_cotrans : (a b c : ℕ) → ltb c b ≡ true → ltb a b ≡ false → ltb a c ≡ false
whole_cotrans a b c h k = ground arith

whole_lt_not : (a b c : ℕ) → ltb c b ≡ true → ltb a b ≡ false → ltb c a ≡ true
whole_lt_not a b c h k = ground arith

whole_mod : (n : ℕ) → n % 2 ^ 64 < 2 ^ 64
whole_mod n = omega arith

pub whole-IsFloat : IsFloat whole
whole-IsFloat = record {
  lt_irrefl = whole_irrefl;
  lt_asymm = whole_asymm;
  lt_cotrans = whole_cotrans;
  lt_of_lt_not = whole_lt_not;
  below_max = λ n h. lt→ltb n (2 ^ 64) h;
  to_u64_bound = whole_mod;
}

abbrev item : ℕ → QueueItem
item n = record {
  wire_encode = n ∷ n ∷ [];
  packet_type = interest;
  pit_entry = some n;
  inface = some 300;
  outface = some 301;
}

abbrev level : ℕ → ℕ → List QueueItem → QosQueue ℕ
level weight finish items = record {
  max_queue_size = 2;
  weight = weight;
  last_virtual_finish_time = finish;
  queue = items;
}

-- Two items of high priority, one of middle, none of low.
abbrev busy : TxQueue ℕ
busy = record {
  priority_queues =
      level 3 40 (item 1 ∷ item 2 ∷ []) ∷ level 2 30 (item 3 ∷ []) ∷ level 1 0 [] ∷ [];
  total_queues = 3;
}

busy-IsValid : IsValid busy
busy-IsValid = record { counted = refl; levels = omega arith }

busy-AllSendable : AllSendable busy
unfolding contents has_faces
busy-AllSendable zero = (refl, (refl, tt))
busy-AllSendable (suc zero) = (refl, tt)
busy-AllSendable (suc (suc zero)) = tt
busy-AllSendable (suc (suc (suc n))) = tt

abbrev bucket : TokenBucket
bucket = record new_bucket { capacity = pos 2; tokens = (301, pos 1) ∷ (302, pos 0) ∷ [] }

abbrev buckets : List TokenBucket
buckets = bucket ∷ bucket ∷ bucket ∷ []

abbrev device : ℕ → Option ℕ
device face = some 20

abbrev queues : List (ℕ × TxQueue ℕ)
queues = (301, busy) ∷ (302, busy) ∷ []

queues-IsServable : IsServable device queues buckets
unfolding lookup
queues-IsServable = record {
  valid = ((busy-IsValid, refl), ((busy-IsValid, refl), tt));
  distinct = (refl, (refl, tt));
  devices = ((20, refl), ((20, refl), tt));
  sendable = (busy-AllSendable, (busy-AllSendable, tt));
}

bucket-HasRoom : HasRoom bucket
unfolding tokens_at lookup_or
bucket-HasRoom face = ground arith

add_token_lem_example : (add_token bucket).0.at_capacity ≡ false
add_token_lem_example = (add_token_lem bucket).2

add_consume-HasRoom_example : HasRoom (add_token bucket).0
add_consume-HasRoom_example = (add_consume-HasRoom bucket 1 301 bucket-HasRoom).0

do_enqueue_lem_example : Enqueued whole 50 (item 9) 1 busy (accepts 1 busy)
do_enqueue_lem_example =
    do_enqueue_lem whole 50 (item 9) 1 busy whole-IsFloat busy-IsValid (omega arith)

select_queue_to_send_lem_example :
    (choice : Option ℕ) × (select_queue_to_send whole busy (pos 1 ∷ pos 1 ∷ pos 0 ∷ [])
      ≡ some choice)
    × IsEarliest whole (ready busy (pos 1 ∷ pos 1 ∷ pos 0 ∷ [])) (finish_time busy) 3 choice
select_queue_to_send_lem_example =
    select_queue_to_send_lem whole whole-IsFloat busy busy-IsValid (pos 1 ∷ pos 1 ∷ pos 0 ∷ [])
      (omega arith)

priority_send-Sends_example :
    (p : Pass whole) × (priority_send whole device queues buckets ≡ some p)
    × Sends whole queues buckets p
priority_send-Sends_example =
    priority_send-Sends whole whole-IsFloat device queues buckets queues-IsServable

-- Face 302 has packets and no tokens; face 301, behind it, has both.
abbrev needy : ℕ → TokenBucket
needy required = record bucket { need = (302, pos required) ∷ [] }

abbrev waits : Drained ℕ
waits = record {
  tx = busy;
  buckets = needy 1 ∷ needy 1 ∷ needy 0 ∷ [];
  waiting = true;
  outputs = [];
}

waits_run : drain whole 5 302 false busy buckets ≡ some waits
unfolding priority_send select_queue_to_send all_empty token_req lookup_or insert
waits_run = refl

-- Face 303 has nothing to send, 302 waits, and 301 behind it has packets and tokens.
abbrev idle : TxQueue ℕ
idle = record {
  priority_queues = level 3 40 [] ∷ level 2 30 [] ∷ level 1 0 [] ∷ [];
  total_queues = 3;
}

priority_send_starves_example :
    priority_send whole device ((303, idle) ∷ (302, busy) ∷ (301, busy) ∷ []) buckets
    ≡ some (record {
      tx_queue = (303, idle) ∷ (302, busy) ∷ (301, busy) ∷ [];
      buckets = needy 1 ∷ needy 1 ∷ needy 0 ∷ [];
      outputs = [];
    })
unfolding priority_send all_empty
priority_send_starves_example =
    priority_send_starves whole whole-IsFloat device ((303, idle) ∷ []) ((301, busy) ∷ []) 302 20
      busy buckets false (record { tx_queue = (303, idle) ∷ []; buckets = buckets; outputs = [] })
      waits refl refl refl waits_run refl ((busy-IsValid, (20, refl)), tt)

drain-Drains_example :
    (d : Drained ℕ) × (drain whole 5 301 false busy buckets ≡ some d) × Drains 301 5 busy buckets d
drain-Drains_example =
    drain-Drains whole whole-IsFloat 5 301 busy buckets busy-IsValid refl busy-AllSendable

-- Rates as counts of packets that were lost in a row.
abbrev pub counted_rates : Rates
counted_rates = record {
  Carrier = ℕ;
  zero_rate = 0;
  lost = λ n. n + 1;
  received = λ n. 0;
  survival = λ n. 100 - n;
}

abbrev room_stats : FaceStats counted_rates
room_stats = record {
  abs_loss_rate = (301, 2) ∷ [];
  rela_loss_rate = [];
  bootstrapped = true;
  total_packets_sent = 5;
}

abbrev asked_two : OutRecord
asked_two = record {
  base = record { face = 301; last_nonce = 7; last_renewed = 100; expiry = 600 };
  incoming_nack = none;
  suppression_interval = none;
}

before_expire-interest_prefix_example :
    find_stats counted_rates
      (interest_prefix (8 ∷ 20 ∷ 65 ∷ []))
      (before_expire_pending_interest counted_rates
        (8 ∷ 20 ∷ 65 ∷ [])
        (asked_two ∷ [])
        []
        ((8 ∷ 20 ∷ [], room_stats) ∷ [])).0
    ≡ find_stats counted_rates (interest_prefix (8 ∷ 20 ∷ 65 ∷ [])) ((8 ∷ 20 ∷ [], room_stats) ∷ [])
before_expire-interest_prefix_example =
    before_expire-interest_prefix counted_rates (8 ∷ 20 ∷ 65 ∷ []) (asked_two ∷ []) []
      ((8 ∷ 20 ∷ [], room_stats) ∷ []) (omega arith)
