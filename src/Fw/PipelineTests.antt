-- ===== src/Fw/PipelineTests.antt =====
-- Runs of the forwarder's pipelines with the content store under the LRU policy.
use nfd_qo_s.Base.{
  ℕ, ◌+◌, ◌*◌, ◌/◌, ◌^◌, ◌≡◌, refl, ◌≢◌, inl, true, false, none, some, [], ◌∷◌, ◌++◌, arith,
  if◌then◌else◌,
}
use nfd_qo_s.Base.Int.{pos}
use nfd_qo_s.Fw.Forwarder.{
  dispatch, on_interest_loop, forward_missed, on_content_store_miss, on_incoming_interest,
  on_interest_finalize, on_incoming_nack, on_outgoing_nack,
}
use nfd_qo_s.Fw.Forwarder.Loops.{counted, on_interest_finalize-loop}
use nfd_qo_s.Table.Pit.{Interest, InRecord, OutRecord, new_entry, get_in_record, get_out_record}
use nfd_qo_s.Cs.Entry.{Data, CsInterest}
use nfd_qo_s.Cs.Store.{Cs, Names, new_cs, insert_data}
use nfd_qo_s.Table.Pit.Entry.{IsValid}
use nfd_qo_s.Cs.Lru.{lru}
use nfd_qo_s.Cs.Find.{find_data}
use nfd_qo_s.Fw.Forwarder.Miss.{Timed, on_content_store_miss_lem}
use nfd_qo_s.Fw.Algorithm.{has_pending_out_records}
use nfd_qo_s.Fw.Forwarder.Nacks.{on_outgoing_nack_lem, on_incoming_nack_lem}
use nfd_qo_s.Fw.IncomingData.Downstreams.{Answered, on_incoming_data_lem}
use nfd_qo_s.Table.DeadNonceList.Retention.{marked, run}
use nfd_qo_s.Table.Records.{find_record}
use nfd_qo_s.Fw.World.{point_to_point, Incoming, Pending, after_receive_nack, out_nack, World, Env}

abbrev no_digests : Names
no_digests = record { is_digest = λ c. false; successor = λ n. n ++ 255 ∷ [] }

abbrev query_for : Incoming → CsInterest
query_for i = record {
  name = i.interest.name;
  is_rightmost = false;
  must_be_fresh = false;
  matches_data = λ d. true;
}

-- Faces are point-to-point, and numbered as they are identified; the strategy does nothing.
abbrev env : Env (Cs lru)
env = record {
  faces = λ f. record { face_id = f; is_local = false; link_type = point_to_point };
  find_face = λ f. some f;
  cs_face = 254;
  is_localhost = λ name. false;
  in_producer_region = λ hint. false;
  dnl = record { hash = λ name nonce. nonce + 1; up = λ n. n; down = λ n. n };
  dnl_lifetime = 6 * 10 ^ 9;
  default_lifetime = 4 * 10 ^ 9;
  duplicate = 100;
  find_in_store = λ now i cs. find_data lru no_digests (now / 10 ^ 6) (query_for i) cs;
  insert_in_store = λ now d unsolicited cs. insert_data lru (now / 10 ^ 6) d unsolicited cs;
  caches_unsolicited = λ f d. false;
  strategy = λ now t w. some w;
}

abbrev ask : Interest
ask = record { name = 8 ∷ 65 ∷ []; nonce = 7; lifetime = pos 500 }

abbrev in_one : InRecord
in_one = record {
  base = record { face = 1; last_nonce = 7; last_renewed = 100; expiry = 600 };
  interest = some ask;
}

abbrev out_two : OutRecord
out_two = record {
  base = record { face = 2; last_nonce = 7; last_renewed = 100; expiry = 600 };
  incoming_nack = none;
  suppression_interval = none;
}

abbrev asked : Pending
asked = record {
  entry = record (new_entry ask) { in_records = in_one ∷ []; out_records = out_two ∷ [] };
  must_be_fresh = false;
  data_freshness_period = 0;
  expiry_timer = some 600;
}

asked-IsValid : IsValid asked.entry
asked-IsValid = record { in_distinct = (tt, tt); out_distinct = (tt, tt) }

abbrev world : World (Cs lru)
world = record {
  counters = record {
    n_in_interests = 0;
    n_out_interests = 0;
    n_in_data = 0;
    n_out_data = 0;
    n_in_nacks = 0;
    n_out_nacks = 0;
    n_satisfied_interests = 0;
    n_unsatisfied_interests = 0;
    n_cs_hits = 0;
    n_cs_misses = 0;
  };
  dead_nonces = record { queue = []; capacity = 8; actual_mark_counts = [] };
  store = new_cs lru 2;
  pending = asked;
  effects = [];
}

abbrev again : Incoming
again = record { interest = ask; hint = []; next_hop_tag = none }

abbrev finalized : World (Cs lru)
finalized = record world {
  dead_nonces = run env.dnl (marked ∷ []) (on_interest_finalize env world).dead_nonces;
}

on_interest_finalize-loop_example :
    on_incoming_interest env 900 2 again finalized
    ≡ some (on_interest_loop env 2 again (counted env finalized))
on_interest_finalize-loop_example =
    on_interest_finalize-loop env world finalized (marked ∷ []) 900 2 again refl (inl refl)
      (omega arith) refl refl refl

on_content_store_miss_lem_example :
    (timed : World (Cs lru)) × (on_content_store_miss env 200 3 again world
      ≡ forward_missed env 200 3 again timed)
    × Timed env 200 3 again world timed
on_content_store_miss_lem_example = on_content_store_miss_lem env 200 3 again world asked-IsValid

three_not_one : ◌≢◌ {A = ℕ} 3 1
three_not_one e = omega (arith, e)

on_outgoing_nack_lem_example :
    (w' : World (Cs lru)) × (on_outgoing_nack env 1 50 world ≡ some w')
    × (w'.effects ≡ [] ++ out_nack 1 ask 50 ∷ [])
    × (get_in_record 1 w'.pending.entry ≡ none)
    × (get_in_record 3 w'.pending.entry ≡ get_in_record 3 asked.entry)
    × (on_outgoing_nack env 1 150 w' ≡ some w')
unfolding find_record
on_outgoing_nack_lem_example =
    on_outgoing_nack_lem env 1 50 150 3 world in_one ask asked-IsValid refl refl refl refl
      three_not_one

on_incoming_nack_lem_example :
    (w' : World (Cs lru)) × (on_incoming_nack env 300 2 ask 50 true world
      ≡ dispatch env 300 (after_receive_nack 2 50) w')
    × (get_out_record 2 w'.pending.entry ≡ some (record out_two { incoming_nack = some 50 }))
    × (w'.pending.expiry_timer
        ≡ (if has_pending_out_records 300 w'.pending.entry then some 600 else some 300))
unfolding find_record
on_incoming_nack_lem_example = on_incoming_nack_lem env 300 2 50 ask world out_two refl refl refl

abbrev sensor : Data
sensor = record { name = 8 ∷ 65 ∷ []; digest = 4; freshness_period = 10; no_cache = true }

on_incoming_data_lem_example : Answered env 300 2 sensor (asked ∷ asked ∷ []) world
unfolding insert_data
on_incoming_data_lem_example =
    on_incoming_data_lem env 300 2 sensor asked asked [] world world.store
      (λ now i d w. (w, refl, refl)) refl refl
