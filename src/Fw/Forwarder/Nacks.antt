-- ===== src/Fw/Forwarder/Nacks.antt =====
-- What the Nack pipelines do to the PIT entry.
use nfd_qo_s.Base.{
  ℕ, ◌+◌, ◌*◌, ◌^◌, ◌≡◌, refl, ap, ◌∙◌, ◌≢◌, inl, inr, true, false, none, some, [], ◌∷◌, ◌++◌,
  arith, ◌==◌, if◌then◌else◌, Bool-cases,
}
use nfd_qo_s.Table.Pit.{
  Interest, InRecord, OutRecord, set_incoming_nack, PitEntry, in_face, out_face, get_in_record,
  delete_in_record, get_out_record,
}
use nfd_qo_s.Fw.Forwarder.{
  put_nack, with_entry, emit, dispatch, after_nack, on_incoming_nack, on_outgoing_nack,
}
use nfd_qo_s.Table.Pit.Entry.{IsValid}
use nfd_qo_s.Fw.Algorithm.{has_pending_out_records}
use nfd_qo_s.Table.Records.{find-erase_other, find-erase_same, find-update_first}
use nfd_qo_s.Fw.World.{point_to_point, count_up, after_receive_nack, out_nack, World, Env}

put_nack-get :
    (face nonce reason : ℕ) (e : PitEntry) (r : OutRecord)
    → get_out_record face e ≡ some r
    → nonce ≡ r.base.last_nonce
    → get_out_record face (put_nack face nonce reason e)
      ≡ some (record r { incoming_nack = some reason })
unfolding set_incoming_nack
put_nack-get face nonce reason e r there same =
    find-update_first out_face (λ o. (set_incoming_nack nonce reason o).0) (λ o. ground arith) face
      e.out_records r there
    ∙ ground (arith, same)

module _ {S : Type 0} (env : Env S) where
  -- On a point-to-point face with an identifier and an in-record that has its Interest, of an entry
  -- with one record for each face, `onOutgoingNack` sends one Nack with that Interest and erases
  -- the in-record, and no other; a second Nack to the face is not sent.
  pub on_outgoing_nack_lem :
      (out_face reason again g : ℕ) (w : World S) (r : InRecord) (interest : Interest)
      → IsValid w.pending.entry
      → ((env.faces out_face).face_id == 0) ≡ false
      → (env.faces out_face).link_type ≡ point_to_point
      → get_in_record out_face w.pending.entry ≡ some r
      → r.interest ≡ some interest
      → g ≢ out_face
      → (w' : World S) × (on_outgoing_nack env out_face reason w ≡ some w')
        × (w'.effects ≡ w.effects ++ out_nack out_face interest reason ∷ [])
        × (get_in_record out_face w'.pending.entry ≡ none)
        × (get_in_record g w'.pending.entry ≡ get_in_record g w.pending.entry)
        × (on_outgoing_nack env out_face again w' ≡ some w')
  unfolding on_outgoing_nack delete_in_record
  on_outgoing_nack_lem out_face reason again g w r interest valid named p2p there asked other =
      let gone = find-erase_same in_face out_face w.pending.entry.in_records valid.in_distinct in
      let w' =
        record (emit env (out_nack out_face interest reason)
          (with_entry env (delete_in_record out_face w.pending.entry) w)) {
            counters = record w.counters { n_out_nacks = count_up w.counters.n_out_nacks };
          } in
      (
        w',
        rw (named, there, p2p, asked) refl,
        refl,
        gone,
        find-erase_other in_face out_face g w.pending.entry.in_records other,
        rw (named, gone) refl,
      )

  -- On a point-to-point face, a Nack with the nonce of the face's out-record is kept on that
  -- out-record and handed to the strategy; the PIT entry's timer is set to now exactly if no
  -- out-record is pending any more.
  pub on_incoming_nack_lem :
      (now in_face reason : ℕ) (interest : Interest) (w : World S) (r : OutRecord)
      → (env.faces in_face).link_type ≡ point_to_point
      → get_out_record in_face w.pending.entry ≡ some r
      → interest.nonce ≡ r.base.last_nonce
      → (w' : World S) × (on_incoming_nack env now in_face interest reason true w
          ≡ dispatch env now (after_receive_nack in_face reason) w')
        × (get_out_record in_face w'.pending.entry
            ≡ some (record r { incoming_nack = some reason }))
        × (w'.pending.expiry_timer ≡ (
            if has_pending_out_records now w'.pending.entry
            then w.pending.expiry_timer
            else some now))
  unfolding on_incoming_nack
  on_incoming_nack_lem now in_face reason interest w r p2p there same =
      let nacked =
        with_entry env (put_nack in_face interest.nonce reason w.pending.entry) (record w {
          counters = record w.counters { n_in_nacks = count_up w.counters.n_in_nacks };
        }) in
      let here = put_nack-get in_face interest.nonce reason w.pending.entry r there same in
      let equal : (interest.nonce == r.base.last_nonce) ≡ true = ground (arith, same) in
      let reached : on_incoming_nack env now in_face interest reason true w
          ≡ after_nack env now in_face reason nacked =
        rw (p2p, there, equal) refl in
      elim (Bool-cases (has_pending_out_records now nacked.pending.entry)) [
        | inl waiting ↦ (nacked, reached ∙ rw waiting refl, here, rw waiting refl)
        | inr over ↦
            let timed = record nacked {
              pending = record nacked.pending { expiry_timer = some now };
            } in
            let at_once : now + 0 * 10 ^ 6 ≡ now = omega arith in
            let set_to : ℕ → World S =
              λ n. record nacked { pending = record nacked.pending { expiry_timer = some n } } in
            (
              timed,
              reached
                  ∙ rw over (
                      ap (λ n. dispatch env now (after_receive_nack in_face reason) (set_to n))
                        at_once),
              here,
              rw over refl,
            )
      ]
