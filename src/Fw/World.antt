-- ===== src/Fw/World.antt =====
-- What the pipelines of `Forwarder` see and change, daemon/fw/forwarder.hpp: its fields, its counters
-- (forwarder-counters.hpp), and what the parts that are parameters answer.
use nfd_qo_s.Base.{ℕ, ◌+◌, ◌%◌, ◌^◌, Bool, true, false, Option, List}
use nfd_qo_s.Table.Pit.{Interest, PitEntry}
use nfd_qo_s.Cs.Entry.{Data}
use nfd_qo_s.Table.DeadNonceList.{Params, DeadNonceList}

pub data LinkType : Type 0 where
  point_to_point multi_access ad_hoc : LinkType

pub record FaceView : Type 0 where
  pub face_id : ℕ
  pub is_local : Bool
  pub link_type : LinkType

-- An Interest as it arrives: `hint` is its forwarding hint, `next_hop_tag` its NextHopFaceId tag.
pub record Incoming : Type 0 where
  pub interest : Interest
  pub hint : List ℕ
  pub next_hop_tag : Option ℕ

-- A PIT entry with the fields that belong to the pipelines; the timer is the time that it is set to.
pub record Pending : Type 0 where
  pub entry : PitEntry
  pub must_be_fresh : Bool
  pub data_freshness_period : ℕ
  pub expiry_timer : Option ℕ

pub record Counters : Type 0 where
  pub n_in_interests : ℕ
  pub n_out_interests : ℕ
  pub n_in_data : ℕ
  pub n_out_data : ℕ
  pub n_in_nacks : ℕ
  pub n_out_nacks : ℕ
  pub n_satisfied_interests : ℕ
  pub n_unsatisfied_interests : ℕ
  pub n_cs_hits : ℕ
  pub n_cs_misses : ℕ

-- `PacketCounter`
abbrev pub count_up : ℕ → ℕ
count_up n = (n + 1) % 2 ^ 64

-- The calls of the strategy.
pub data Trigger : Type 0 where
  after_receive_interest : ℕ → Incoming → Trigger
  before_satisfy_interest : ℕ → Data → Trigger
  after_content_store_hit : ℕ → Data → Trigger
  after_receive_data : ℕ → Data → Trigger
  after_receive_nack : ℕ → ℕ → Trigger

-- What leaves the forwarder, and what it signals.
pub data Effect : Type 0 where
  out_interest : ℕ → Interest → Effect
  out_data : ℕ → Data → Effect
  out_nack : ℕ → Interest → ℕ → Effect
  signal_satisfy : ℕ → Data → Effect
  signal_expire : Effect
  pit_delete : Effect
  to_strategy : Trigger → Effect

pub record World (S : Type 0) : Type 0 where
  pub counters : Counters
  pub dead_nonces : DeadNonceList
  pub store : S
  pub pending : Pending
  pub effects : List Effect

-- `duplicate` is the reason of a Nack for a loop, `cs_face` the face of the content store.
pub record Env (S : Type 0) : Type 0 where
  pub faces : ℕ → FaceView
  pub find_face : ℕ → Option ℕ
  pub cs_face : ℕ
  pub is_localhost : List ℕ → Bool
  pub in_producer_region : List ℕ → Bool
  pub dnl : Params
  pub dnl_lifetime : ℕ
  pub default_lifetime : ℕ
  pub duplicate : ℕ
  pub find_in_store : ℕ → Incoming → S → Option (Option Data × S)
  pub insert_in_store : ℕ → Data → Bool → S → Option S
  pub caches_unsolicited : ℕ → Data → Bool
  pub strategy : ℕ → Trigger → World S → Option (World S)

abbrev pub is_point_to_point : LinkType → Bool
is_point_to_point point_to_point = true
is_point_to_point multi_access = false
is_point_to_point ad_hoc = false
