-- ===== src/Fw/IncomingData/Downstreams.antt =====
-- Data that satisfies several PIT entries goes once to each pending downstream.
use nfd_qo_s.Base.{
  ℕ, suc, ◌+◌, ◌*◌, ◌^◌, ◌<◌, ◌≡◌, refl, ap, ◌∙◌, ◌↔◌, ◌⊎◌, inl, inr, true, false, not, ◌&&◌,
  Option, some, List, [], ◌∷◌, ◌++◌, arith, Bool-cases, length, All, Any,
}
use nfd_qo_s.Fw.IncomingData.{pending_faces, satisfy_each, satisfy_all, send_all, on_incoming_data}
use nfd_qo_s.Table.Pit.{in_face, clear_in_records, delete_out_record}
use nfd_qo_s.Base.Occurs.{occurs}
use nfd_qo_s.Fw.Forwarder.{with_entry, emit, needs_dead_nonces, insert_dead_nonce_list, satisfied}
use nfd_qo_s.Cs.Entry.{Data}
use nfd_qo_s.Fw.World.{
  Pending, count_up, before_satisfy_interest, signal_satisfy, to_strategy, World, Env,
}
use nfd_qo_s.Fw.IncomingData.Sent.{data_sent, data_sent-quiet, deliveries, data_sent-send_all}
use nfd_qo_s.Fw.IncomingData.Faces.{
  IsIncreasing, Waits, pending_faces-IsIncreasing, pending_faces-Waits,
}

module _ {S : Type 0} (env : Env S) where
  pending-insert_dead :
      (u : Option ℕ) (w : World S) → (insert_dead_nonce_list env u w).pending ≡ w.pending
  unfolding insert_dead_nonce_list
  pending-insert_dead u w = elim (Bool-cases (not (needs_dead_nonces env w.pending))) [
    | inl h ↦ rw h refl
    | inr h ↦ rw h refl
  ]

  effects-insert_dead :
      (u : Option ℕ) (w : World S) → (insert_dead_nonce_list env u w).effects ≡ w.effects
  unfolding insert_dead_nonce_list
  effects-insert_dead u w = elim (Bool-cases (not (needs_dead_nonces env w.pending))) [
    | inl h ↦ rw h refl
    | inr h ↦ rw h refl
  ]

  -- `beforeSatisfyInterest` of the strategies makes no fault and sends no Data itself, as that of
  -- `Strategy`, which the strategies of the forwarder inherit or extend by notes of their own.
  abbrev pub AnswersQuietly : Type 0
  AnswersQuietly =
      (now in_face : ℕ) (d : Data) (w : World S)
      → (w' : World S) × (env.strategy now (before_satisfy_interest in_face d) w ≡ some w')
        × (data_sent w'.effects ≡ data_sent w.effects)

  abbrev pub IsSatisfied : Pending → Type 0
  IsSatisfied p = (p.entry.is_satisfied ≡ true) × (p.entry.in_records ≡ [])

  satisfy_each_lem :
      (now in_face : ℕ) (d : Data) (w : World S)
      → AnswersQuietly
      → (w' : World S) × (satisfy_each env now in_face d w ≡ some w')
        × IsSatisfied w'.pending
        × (data_sent w'.effects ≡ data_sent w.effects)
  unfolding satisfy_each delete_out_record data_sent
  satisfy_each_lem now in_face d w quietly =
      let timed = record w {
        pending = record w.pending { expiry_timer = some (now + 0 * 10 ^ 6) };
      } in
      let t = before_satisfy_interest in_face d in
      let signalled = emit env (signal_satisfy in_face d) timed in
      let (asked, run, quiet) = quietly now in_face d (emit env (to_strategy t) signalled) in
      let done = record asked { pending = satisfied env d asked.pending } in
      let listed = insert_dead_nonce_list env (some in_face) done in
      let same = pending-insert_dead (some in_face) done in
      (
        with_entry env (delete_out_record in_face (clear_in_records listed.pending.entry)) listed,
        rw run refl,
        (ap (λ p. p.entry.is_satisfied) same, refl),
        ap data_sent (effects-insert_dead (some in_face) done)
            ∙ quiet
            ∙ data_sent-quiet signalled.effects (to_strategy t) refl
            ∙ data_sent-quiet timed.effects (signal_satisfy in_face d) refl,
      )

  -- The faces of all unexpired in-records.
  abbrev pub downstreams : ℕ → List Pending → List ℕ → List ℕ
  downstreams now [] faces = faces
  downstreams now (p ∷ ps) faces = downstreams now ps (pending_faces now p.entry.in_records faces)

  downstreams-IsIncreasing :
      (now : ℕ) (ps : List Pending) (fs : List ℕ)
      → IsIncreasing fs
      → IsIncreasing (downstreams now ps fs)
  downstreams-IsIncreasing now [] fs i = i
  downstreams-IsIncreasing now (p ∷ ps) fs i =
      downstreams-IsIncreasing now ps (pending_faces now p.entry.in_records fs)
        (pending_faces-IsIncreasing now p.entry.in_records fs i)

  downstreams-Waits :
      (now g : ℕ) (ps : List Pending) (fs : List ℕ)
      → (0 < occurs g (downstreams now ps fs))
        ↔ (Any (λ p. Waits now g p.entry.in_records) ps ⊎ (0 < occurs g fs))
  downstreams-Waits now g [] fs = (λ h. inr h, elim [ inl w ↦ absurd w | inr h ↦ h ])
  downstreams-Waits now g (p ∷ ps) fs =
      let later = downstreams-Waits now g ps (pending_faces now p.entry.in_records fs) in
      let here = pending_faces-Waits now g p.entry.in_records fs in
      (
        λ h. elim (later.0 h) [
          | inl waits ↦ inl (inr waits)
          | inr old ↦ elim (here.0 old) [ inl new ↦ inl (inl new) | inr older ↦ inr older ]
        ],
        λ h. later.1 (elim h [
          | inl (inl new) ↦ inr (here.1 (inl new))
          | inl (inr waits) ↦ inl waits
          | inr old ↦ inr (here.1 (inr old))
        ]),
      )

  satisfy_all_lem :
      (now in_face : ℕ) (d : Data) (ps : List Pending) (faces : List ℕ) (w : World S)
      → AnswersQuietly
      → (w' : World S) × (ps' : List Pending) × (satisfy_all env now in_face d ps faces w
          ≡ some (w', ps', downstreams now ps faces))
        × All IsSatisfied ps'
        × (length ps' ≡ length ps)
        × (data_sent w'.effects ≡ data_sent w.effects)
  unfolding satisfy_all
  satisfy_all_lem now in_face d [] faces w quietly = (w, [], refl, tt, refl, refl)
  satisfy_all_lem now in_face d (p ∷ ps) faces w quietly =
      let (w₁, run, here, quiet) =
        satisfy_each_lem now in_face d (record w { pending = p }) quietly in
      let (w₂, ps', rest, there, len, still) =
        satisfy_all_lem now in_face d ps (pending_faces now p.entry.in_records faces) w₁ quietly in
      (w₂, w₁.pending ∷ ps', rw (run, rest) refl, (here, there), ap suc len, still ∙ quiet)

  -- What `onIncomingData` does for the entries `ms` that the Data matches. `faces` are exactly the
  -- faces of their unexpired in-records, each once, and all the Data that the run sends is what
  -- `deliveries` lists for them.
  pub record Answered (now in_face : ℕ) (d : Data) (ms : List Pending) (w : World S) : Type 0 where
    pub world : World S
    pub entries : List Pending
    pub faces : List ℕ
    pub ended : on_incoming_data env now in_face d ms w ≡ some (world, entries)
    pub all_satisfied : All IsSatisfied entries
    pub same_number : length entries ≡ length ms
    pub in_order : IsIncreasing faces
    pub waits : (g : ℕ) → (0 < occurs g faces) ↔ Any (λ m. Waits now g m.entry.in_records) ms
    pub sent : data_sent world.effects ≡ data_sent w.effects ++ deliveries env in_face d faces

  -- When Data satisfies several PIT entries, on a face that its name is allowed on,
  -- `onIncomingData` marks each of them satisfied and clears its in-records, and sends the Data to
  -- the faces of all unexpired in-records and no other, each once, in order of the faces: not back
  -- to the face it came from unless that is ad hoc, nor to an invalid face or where the scope
  -- forbids it. The strategy's `beforeSatisfyInterest` makes no fault and sends no Data, and the
  -- store takes the Data.
  pub on_incoming_data_lem :
      (now in_face : ℕ) (d : Data) (p q : Pending) (ps : List Pending) (w : World S) (store : S)
      → AnswersQuietly
      → env.insert_in_store now d false w.store ≡ some store
      → (not (env.faces in_face).is_local && env.is_localhost d.name) ≡ false
      → Answered now in_face d (p ∷ q ∷ ps) w
  unfolding on_incoming_data
  on_incoming_data_lem now in_face d p q ps w store quietly stored allowed =
      let ms = p ∷ q ∷ ps in
      let faces = downstreams now ms [] in
      let counted = record w {
        counters = record w.counters { n_in_data = count_up w.counters.n_in_data };
        store = store;
      } in
      let (w', ps', run, all_satisfied, len, quiet) =
        satisfy_all_lem now in_face d ms [] counted quietly in
      record {
        world = send_all env in_face d faces w';
        entries = ps';
        faces = faces;
        ended = rw (allowed, stored, run) refl;
        all_satisfied = all_satisfied;
        same_number = len;
        in_order = downstreams-IsIncreasing now ms [] tt;
        waits = λ g.
            let waits = downstreams-Waits now g ms [] in
            (
              λ h. elim (waits.0 h) [ inl found ↦ found | inr none_yet ↦ absurd (omega arith) ],
              λ h. waits.1 (inl h),
            );
        sent =
            data_sent-send_all env in_face d faces w'
            ∙ ap (λ l. l ++ deliveries env in_face d faces) quiet;
      }
