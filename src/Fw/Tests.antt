-- ===== src/Fw/Tests.antt =====
-- Runs of the forwarding decisions on a PIT entry with one in-record and one out-record.
use mathlib.Core.Option
use nfd_qo_s.Base.{
  ℕ, ◌+◌, ◌*◌, ◌^◌, ◌≤◌, ◌<◌, ◌≡◌, refl, ◌≢◌, ◌↔◌, ◌⊎◌, true, false, none, some, [], ◌∷◌, arith,
  ltb, ◌==◌, All, Any,
}
use nfd_qo_s.Table.Pit.{
  Interest, InRecord, OutRecord, new_out_record, PitEntry, new_entry, get_out_record,
  insert_or_update_out_record,
}
use nfd_qo_s.Table.Pit.Entry.{IsValid}
use nfd_qo_s.Fw.Algorithm.{Prefixes, find_duplicate_nonce, has_pending_out_records}
use nfd_qo_s.Fw.Algorithm.Answers.{find_duplicate_nonce_lem}
use nfd_qo_s.Fw.Retx.{
  RetxSuppressionResult, new, forward, suppress, decide_fixed, RetxSuppressionExponential,
  interval_of, next_interval, decide_per_pit_entry,
}
use nfd_qo_s.Fw.FaceTable.{invalid_faceid, FaceTable, id_of, get_face, add_face}
use nfd_qo_s.Fw.FaceTable.Identifiers.{IsTable, add_face_lem}
use nfd_qo_s.Base.Assoc.{lookup_or}
use nfd_qo_s.Fw.BestRoute.{Arrival, Outcome, after_receive_interest}
use nfd_qo_s.Fw.BestRoute.Choice.{Reason, after_receive_interest_lem}
use nfd_qo_s.Fw.ProcessNack.{Severity, NackAnswer, process_nack}
use nfd_qo_s.Fw.ProcessNack.Answer.{Answers, process_nack_lem}
use nfd_qo_s.Fw.Retx.Decisions.{IsBetween, decide_per_pit_entry_lem}
use nfd_qo_s.Fw.Retx.Sent.{decide_fixed-sent}
use nfd_qo_s.Base.Int.{pos}
use nfd_qo_s.Table.Records.{find_record}

abbrev ask : Interest
ask = record { name = 8 ∷ 1 ∷ 65 ∷ []; nonce = 7; lifetime = pos (5 * 10 ^ 8) }

abbrev from_one : InRecord
from_one = record {
  base = record { face = 1; last_nonce = 7; last_renewed = 100; expiry = 5 * 10 ^ 8 + 100 };
  interest = some ask;
}

abbrev to_two : OutRecord
to_two = record {
  base = record { face = 2; last_nonce = 7; last_renewed = 100; expiry = 5 * 10 ^ 8 + 100 };
  incoming_nack = none;
  suppression_interval = none;
}

abbrev entry : PitEntry
entry = record (new_entry ask) { in_records = from_one ∷ []; out_records = to_two ∷ [] }

entry-IsValid : IsValid entry
entry-IsValid = record { in_distinct = (tt, tt); out_distinct = (tt, tt) }

abbrev prefixes : Prefixes
prefixes = record { is_localhost = λ name. false; is_localhop = λ name. true }

find_duplicate_nonce_lem_example :
    let d = find_duplicate_nonce entry 7 1 in
    ((d.in_same ≡ true) ↔ Any (λ r. (r.base.last_nonce ≡ 7) × (r.base.face ≡ 1)) entry.in_records)
    × ((d.in_other ≡ true)
        ↔ Any (λ r. (r.base.last_nonce ≡ 7) × (r.base.face ≢ 1)) entry.in_records)
    × ((d.out_same ≡ true)
        ↔ Any (λ r. (r.base.last_nonce ≡ 7) × (r.base.face ≡ 1)) entry.out_records)
    × ((d.out_other ≡ true)
        ↔ Any (λ r. (r.base.last_nonce ≡ 7) × (r.base.face ≢ 1)) entry.out_records)
find_duplicate_nonce_lem_example = find_duplicate_nonce_lem entry 7 1

abbrev Pending : ℕ → ℕ → RetxSuppressionResult → Type 0
Pending interval now r =
    ((r ≡ suppress) × Any (λ o. now < o.base.last_renewed + interval) entry.out_records)
    ⊎ ((r ≡ forward) × All (λ o. o.base.last_renewed + interval ≤ now) entry.out_records)

abbrev doubling : RetxSuppressionExponential
doubling = record { initial_interval = 1000; max_interval = 250000; grow = λ n. 2 * n }

decide_per_pit_entry_lem_example :
    (r : RetxSuppressionResult) × (e' : PitEntry) × (decide_per_pit_entry doubling 200 2000000 entry
      ≡ some (r, e'))
    × (((r ≡ new)
          × (e' ≡ entry)
          × All (λ o. (o.base.expiry < 200) ⊎ (o.incoming_nack ≢ none)) entry.out_records)
        ⊎ ((has_pending_out_records 200 entry ≡ true) × Pending (10 ^ 6) 2000000 r))
    × IsBetween doubling e'
    × (e'.out_records ≡ to_two ∷ [])
    × (e'.in_records ≡ from_one ∷ [])
    × (interval_of doubling e'.suppression_interval
        ≡ elim r [ new ↦ 1000 | suppress ↦ 1000 | forward ↦ next_interval doubling 1000 ])
decide_per_pit_entry_lem_example =
    decide_per_pit_entry_lem doubling 200 2000000 entry (omega arith) (λ n h. omega arith)
      (omega arith, omega arith)

not_nacked : (Option.get_or (get_out_record 2 entry) (new_out_record 2)).incoming_nack ≡ none
unfolding find_record
not_nacked = refl

decide_fixed-sent_example :
    decide_fixed 100 500 500 (insert_or_update_out_record 4 300 2 ask entry) ≡ some suppress
decide_fixed-sent_example =
    decide_fixed-sent 4 300 500 2 ask entry entry-IsValid (omega arith) 100 (omega arith) not_nacked
      (omega arith)

abbrev one_face : FaceTable
one_face = record { last_face_id = 256; faces = (256, 9) ∷ []; ids = (9, 256) ∷ [] }

one_face-IsTable : IsTable one_face
unfolding lookup_or
one_face-IsTable = record {
  above_reserved = omega arith;
  one_each = (tt, tt);
  known = ((refl, omega arith, omega arith), tt);
}

no_id : id_of 5 one_face ≡ invalid_faceid
unfolding lookup_or
no_id = refl

found_one : get_face 256 one_face ≡ some (256, 9)
unfolding find_record
found_one = refl

differ_one : ◌≢◌ {A = ℕ} 256 257
differ_one e = omega (arith, e)

add_face_lem_example :
    (t' : FaceTable) × (add_face 5 one_face ≡ some (t', some 5))
    × IsTable t'
    × (t'.last_face_id ≡ 257)
    × (get_face 257 one_face ≡ none)
    × (get_face 257 t' ≡ some (257, 5))
    × (id_of 5 t' ≡ 257)
    × (get_face 256 t' ≡ get_face 256 one_face)
add_face_lem_example = add_face_lem 5 256 one_face one_face-IsTable no_id (omega arith) differ_one

abbrev arrival : Arrival
arrival = record {
  prefixes = prefixes;
  faces = λ f. record { is_local = f == 3; is_ad_hoc = false };
  in_face = 1;
  interest = ask;
  next_hops =
      record { face = 2; endpoint_id = 0; cost = 10 }
      ∷ record { face = 3; endpoint_id = 0; cost = 20 }
      ∷ [];
}

-- A retransmission after two milliseconds.
after_receive_interest_lem_example :
    (o : Outcome) × (e' : PitEntry) × (after_receive_interest doubling 4 200 2000000 arrival entry
      ≡ some (o, e'))
    × Reason doubling 200 2000000 arrival entry o
after_receive_interest_lem_example =
    after_receive_interest_lem doubling 4 200 2000000 arrival entry (omega arith)
      (λ n h. omega arith) (omega arith, omega arith)

abbrev by_number : Severity
by_number = record { none_reason = 1000; is_less_severe = λ a b. ltb a b }

abbrev nacked : PitEntry
nacked = record entry { out_records = record to_two { incoming_nack = some 50 } ∷ [] }

process_nack_lem_example :
    (answer : NackAnswer) × (process_nack by_number nacked ≡ answer) × Answers nacked answer
process_nack_lem_example = process_nack_lem by_number nacked
