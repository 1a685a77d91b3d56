-- ===== src/Fw/Forwarder.antt =====
-- The pipelines of `Forwarder`, daemon/fw/forwarder.cpp. The PIT entry that a pipeline works on, which
-- `m_pit.insert` or `m_pit.find` gives, is part of the state that it changes; the strategy chosen for the
-- entry and the content store (`m_cs`, or the one of ndnSIM) are parameters. Times are in nanoseconds.
-- `none` is a failed assertion, or a fault of a parameter.
pub mod Loops
pub mod Miss
pub mod Nacks
use nfd_qo_s.Base.{
  ℕ, ◌+◌, ◌-◌, ◌*◌, ◌/◌, ◌^◌, max, Bool, true, not, ◌&&◌, ◌||◌, Option, none, some, List, [], ◌∷◌,
  ◌++◌, ltb, leb, ◌==◌, if◌then◌else◌, ◌>>=◌, null,
}
use nfd_qo_s.Base.Int.{ℤ, pos, negsuc}
use nfd_qo_s.Table.Pit.{
  Interest, InRecord, OutRecord, set_incoming_nack, PitEntry, in_face, out_face, get_in_record,
  insert_or_update_in_record, delete_in_record, get_out_record, insert_or_update_out_record,
}
use nfd_qo_s.Cs.Entry.{Data}
use nfd_qo_s.Table.Records.{update_first}
use nfd_qo_s.Fw.Algorithm.{find_duplicate_nonce, has_pending_out_records}
use nfd_qo_s.Table.DeadNonceList.{Params, DeadNonceList, has, add}
use nfd_qo_s.Fw.World.{
  Incoming, Pending, count_up, Trigger, after_receive_interest, before_satisfy_interest,
  after_content_store_hit, after_receive_nack, Effect, out_interest, out_data, out_nack,
  signal_satisfy, signal_expire, pit_delete, to_strategy, World, Env, is_point_to_point,
}

-- `time::duration_cast<time::milliseconds>` of the time from `now` to `at`, in milliseconds
abbrev pub from_now : ℕ → ℕ → ℤ
from_now now at =
    if leb now at
    then pos ((at - now) / 10 ^ 6)
    else if (now - at) / 10 ^ 6 == 0
    then pos 0
    else negsuc ((now - at) / 10 ^ 6 - 1)

-- `std::max_element` of the in-records by their expiry
pub last_expiring : List InRecord → Option ℕ
last_expiring [] = none
last_expiring (r ∷ rs) = elim (last_expiring rs) [
  | none ↦ some r.base.expiry
  | some at ↦ some (max r.base.expiry at)
]

-- `setIncomingNack` on the out-record that was found
abbrev pub put_nack : ℕ → ℕ → ℕ → PitEntry → PitEntry
put_nack face nonce reason e = record e {
  out_records =
      update_first out_face face (λ r. let (r', accepted) = set_incoming_nack nonce reason r in r')
        e.out_records;
}

-- All outgoing Nonces are added.
pub add_nonces : Params → List ℕ → List OutRecord → DeadNonceList → DeadNonceList
add_nonces params name [] l = l
add_nonces params name (r ∷ rs) l = add_nonces params name rs (add params name r.base.last_nonce l)

module _ {S : Type 0} (env : Env S) where
  abbrev pub with_entry : PitEntry → World S → World S
  with_entry e w = record w { pending = record w.pending { entry = e } }

  abbrev pub emit : Effect → World S → World S
  emit e w = record w { effects = w.effects ++ e ∷ [] }

  -- `dispatchToStrategy`
  abbrev pub dispatch : ℕ → Trigger → World S → Option (World S)
  dispatch now t w = env.strategy now t (emit (to_strategy t) w)

  -- The argument is a number of milliseconds.
  abbrev pub set_expiry_timer : ℕ → ℤ → World S → Option (World S)
  set_expiry_timer now (pos d) w =
      some (record w { pending = record w.pending { expiry_timer = some (now + d * 10 ^ 6) } })
  set_expiry_timer now (negsuc d) w = none

  abbrev pub needs_dead_nonces : Pending → Bool
  needs_dead_nonces p =
      if p.entry.is_satisfied
      then p.must_be_fresh && ltb p.data_freshness_period env.dnl_lifetime
      else true

  abbrev pub nonces_of : Option ℕ → Pending → DeadNonceList → DeadNonceList
  nonces_of none p l = add_nonces env.dnl p.entry.interest.name p.entry.out_records l
  nonces_of (some upstream) p l = elim (get_out_record upstream p.entry) [
    | none ↦ l
    | some r ↦ add env.dnl p.entry.interest.name r.base.last_nonce l
  ]

  unfoldable pub insert_dead_nonce_list : Option ℕ → World S → World S
  unfolding add_nonces
  insert_dead_nonce_list upstream w =
      if not (needs_dead_nonces w.pending)
      then w
      else record w { dead_nonces = nonces_of upstream w.pending w.dead_nonces }

  unfoldable pub on_interest_loop : ℕ → Incoming → World S → World S
  on_interest_loop in_face i w =
      if not (is_point_to_point (env.faces in_face).link_type)
      then w
      else emit (out_nack in_face i.interest env.duplicate) w

  unfoldable pub on_outgoing_interest : ℕ → ℕ → Interest → World S → World S
  on_outgoing_interest now out_face interest w =
      let sent = emit (out_interest out_face interest) (
        with_entry
          (insert_or_update_out_record env.default_lifetime now out_face interest w.pending.entry)
          w) in
      record sent {
        counters = record w.counters { n_out_interests = count_up w.counters.n_out_interests };
      }

  -- After the in-record and the timer.
  abbrev pub forward_missed : ℕ → ℕ → Incoming → World S → Option (World S)
  forward_missed now in_face i w = elim i.next_hop_tag [
    | none ↦ dispatch now (after_receive_interest in_face i) w
    | some tag ↦ elim (env.find_face tag) [
      | none ↦ some w
      | some next_hop ↦ some (on_outgoing_interest now next_hop i.interest w)
    ]
  ]

  unfoldable pub on_content_store_miss : ℕ → ℕ → Incoming → World S → Option (World S)
  unfolding last_expiring
  on_content_store_miss now in_face i w =
      let e =
        insert_or_update_in_record env.default_lifetime now in_face i.interest w.pending.entry in
      let missed = with_entry e (record w {
        counters = record w.counters { n_cs_misses = count_up w.counters.n_cs_misses };
      }) in
      do
        at ← last_expiring e.in_records
        timed ← set_expiry_timer now (from_now now at) missed
        forward_missed now in_face i timed

  abbrev pub satisfied : Data → Pending → Pending
  satisfied d p = record p {
    entry = record p.entry { is_satisfied = true };
    data_freshness_period = d.freshness_period * 10 ^ 6;
  }

  unfoldable pub on_content_store_hit : ℕ → ℕ → Incoming → Data → World S → Option (World S)
  on_content_store_hit now in_face i d w =
      let hit = record w {
        counters = record w.counters { n_cs_hits = count_up w.counters.n_cs_hits };
        pending = satisfied d w.pending;
      } in
      do
        timed ← set_expiry_timer now (pos 0) hit
        asked ←
            dispatch now (before_satisfy_interest env.cs_face d)
              (emit (signal_satisfy env.cs_face d) timed)
        dispatch now (after_content_store_hit in_face d) asked

  -- The PIT entry of the state is the one that `m_pit.insert` gives for the Interest.
  abbrev pub is_looping : ℕ → Incoming → World S → Bool
  is_looping in_face i w =
      let dnw = find_duplicate_nonce w.pending.entry i.interest.nonce in_face in
      let has_duplicate = dnw.in_same || dnw.in_other || dnw.out_same || dnw.out_other in
      if is_point_to_point (env.faces in_face).link_type
      then has_duplicate && not dnw.in_same
      else has_duplicate

  unfoldable pub answer_from_store : ℕ → ℕ → Incoming → World S → Option (World S)
  answer_from_store now in_face i w =
      if null w.pending.entry.in_records
      then (do
        (found, store) ← env.find_in_store now i w.store
        elim found [
          | none ↦ on_content_store_miss now in_face i (record w { store = store })
          | some d ↦ on_content_store_hit now in_face i d (record w { store = store })
        ])
      else on_content_store_miss now in_face i w

  unfoldable pub on_incoming_interest : ℕ → ℕ → Incoming → World S → Option (World S)
  on_incoming_interest now in_face i w₀ =
      let w = record w₀ {
        counters = record w₀.counters { n_in_interests = count_up w₀.counters.n_in_interests };
      } in
      if not (env.faces in_face).is_local && env.is_localhost i.interest.name
      then some w
      else if has env.dnl w.dead_nonces i.interest.name i.interest.nonce
      then some (on_interest_loop in_face i w)
      else (let i' =
            if not (null i.hint) && env.in_producer_region i.hint
            then record i { hint = [] }
            else i in
          if is_looping in_face i' w
          then some (on_interest_loop in_face i' w)
          else answer_from_store now in_face i' w)

  unfoldable pub on_interest_finalize : World S → World S
  unfolding insert_dead_nonce_list
  on_interest_finalize w =
      let is_satisfied = w.pending.entry.is_satisfied in
      let signalled = if not is_satisfied then emit signal_expire w else w in
      let listed = insert_dead_nonce_list none signalled in
      let c = listed.counters in
      let counters =
        if is_satisfied
        then record c { n_satisfied_interests = count_up c.n_satisfied_interests }
        else record c { n_unsatisfied_interests = count_up c.n_unsatisfied_interests } in
      emit pit_delete (record listed {
        counters = counters;
        pending = record listed.pending { expiry_timer = none };
      })

  unfoldable pub on_outgoing_data : Data → ℕ → World S → World S
  on_outgoing_data d out_face w =
      if (env.faces out_face).face_id == 0
      then w
      else if not (env.faces out_face).is_local && env.is_localhost d.name
      then w
      else record (emit (out_data out_face d) w) {
        counters = record w.counters { n_out_data = count_up w.counters.n_out_data };
      }

  unfoldable pub on_data_unsolicited : ℕ → ℕ → Data → World S → Option (World S)
  on_data_unsolicited now in_face d w =
      if env.caches_unsolicited in_face d
      then (do store ← env.insert_in_store now d true w.store; some (record w { store = store }))
      else some w

  -- After the Nack is recorded on the out-record.
  abbrev pub after_nack : ℕ → ℕ → ℕ → World S → Option (World S)
  after_nack now in_face reason w =
      if not (has_pending_out_records now w.pending.entry)
      then (do
        timed ← set_expiry_timer now (pos 0) w
        dispatch now (after_receive_nack in_face reason) timed)
      else dispatch now (after_receive_nack in_face reason) w

  -- `found` says whether `m_pit.find` gave the PIT entry of the state, or none.
  unfoldable pub on_incoming_nack : ℕ → ℕ → Interest → ℕ → Bool → World S → Option (World S)
  unfolding set_incoming_nack
  on_incoming_nack now in_face interest reason found w₀ =
      let w = record w₀ {
        counters = record w₀.counters { n_in_nacks = count_up w₀.counters.n_in_nacks };
      } in
      if not (is_point_to_point (env.faces in_face).link_type)
      then some w
      else if not found
      then some w
      else elim (get_out_record in_face w.pending.entry) [
        | none ↦ some w
        | some r ↦
            if not (interest.nonce == r.base.last_nonce)
            then some w
            else after_nack now in_face reason
                (with_entry (put_nack in_face interest.nonce reason w.pending.entry) w)
      ]

  unfoldable pub on_outgoing_nack : ℕ → ℕ → World S → Option (World S)
  on_outgoing_nack out_face reason w =
      if (env.faces out_face).face_id == 0
      then some w
      else elim (get_in_record out_face w.pending.entry) [
        | none ↦ some w
        | some r ↦ if not (is_point_to_point (env.faces out_face).link_type) then some w else (do
          interest ← r.interest
          some
              (record (emit (out_nack out_face interest reason)
                (with_entry (delete_in_record out_face w.pending.entry) w)) {
                  counters = record w.counters { n_out_nacks = count_up w.counters.n_out_nacks };
                }))
      ]
