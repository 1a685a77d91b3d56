-- ===== src/Fw/Retx/Sent.antt =====
-- What follows on the forwarding of an Interest.
use mathlib.Core.Option
use nfd_qo_s.Fw.Algorithm.Answers.{can_forward_to_legacy_lem, has_pending_none}
use nfd_qo_s.Fw.Retx.Decisions.{decide_fixed_lem}
use nfd_qo_s.Base.{
  ℕ, ◌+◌, ◌*◌, ◌^◌, ◌≤◌, ◌<◌, ◌≡◌, ap, ◌∙◌, inl, inr, true, false, none, some, arith, Bool-cases,
}
use nfd_qo_s.Table.Pit.{
  Interest, lifetime_of, OutRecord, new_out_record, PitEntry, out_face, get_out_record,
  insert_or_update_out_record,
}
use nfd_qo_s.Table.Pit.Entry.{IsValid, get_out_record-insert}
use nfd_qo_s.Fw.Algorithm.{can_forward_to_legacy, has_pending_out_records}
use nfd_qo_s.Fw.Retx.{suppress, decide_fixed}
use nfd_qo_s.Table.Records.{All-find_record}

module _ (default_lifetime sent now face : ℕ) (interest : Interest) (e : PitEntry)
    (valid : IsValid e) (alive : now ≤ sent + lifetime_of default_lifetime interest.lifetime) where
  abbrev after : PitEntry
  after = insert_or_update_out_record default_lifetime sent face interest e

  abbrev old : OutRecord
  old = Option.get_or (get_out_record face e) (new_out_record face)

  abbrev record_after : OutRecord
  record_after = record old {
    base = record {
      face = face;
      last_nonce = interest.nonce;
      last_renewed = sent;
      expiry = sent + lifetime_of default_lifetime interest.lifetime;
    };
  }

  found : get_out_record face after ≡ some record_after
  found = get_out_record-insert default_lifetime sent face interest e valid

  -- Until the out-record expires, the Interest is not forwarded to that face again.
  pub can_forward_to_legacy-sent : can_forward_to_legacy now after face ≡ false
  can_forward_to_legacy-sent = elim (Bool-cases (can_forward_to_legacy now after face)) [
    | inr refused ↦ refused
    | inl allowed ↦
        let (quiet, _) = (can_forward_to_legacy_lem now after face).0 allowed in
        let here = All-find_record out_face _ face after.out_records record_after quiet found in
        absurd (ground arith)
  ]

  pending : old.incoming_nack ≡ none → has_pending_out_records now after ≡ true
  pending fresh = elim (Bool-cases (has_pending_out_records now after)) [
    | inl allowed ↦ allowed
    | inr refused ↦
        let idle = (has_pending_none now after).0 refused in
        let here = All-find_record out_face _ face after.out_records record_after idle found in
        absurd (ground arith)
  ]

  -- After an Interest was sent to a face whose out-record carries no nack, `decidePerPitEntry`
  -- of the fixed suppression suppresses a retransmission within the interval, as long as the
  -- out-record lives.
  pub decide_fixed-sent :
      (interval : ℕ)
      → 0 < interval
      → old.incoming_nack ≡ none
      → now < sent + interval * 10 ^ 6
      → decide_fixed interval now now after ≡ some suppress
  decide_fixed-sent interval pos fresh soon =
      let (r, run, why) = decide_fixed_lem interval now now after pos in
      elim why [
        | inl (is_new, idle) ↦
            absurd (ground (arith, pending fresh, (has_pending_none now after).1 idle))
        | inr (_, inl (stop, _)) ↦ run ∙ ap some stop
        | inr (_, inr (_, late)) ↦
            let here = All-find_record out_face _ face after.out_records record_after late found in
            absurd (omega arith)
      ]
