-- ===== src/Fw/IncomingData.antt =====
-- `Forwarder::onIncomingData` of daemon/fw/forwarder.cpp over the pipelines of Fw/Forwarder. The
-- PIT entries that `m_pit.findAllDataMatches` gives are an argument, and what becomes of them a
-- result; the entry in the state is the one that is worked on.
pub mod Faces
pub mod Sent
pub mod Downstreams
use nfd_qo_s.Base.{
  ℕ, Bool, true, false, not, ◌&&◌, Option, some, List, [], ◌∷◌, ltb, ◌==◌, if◌then◌else◌, ◌>>=◌,
}
use nfd_qo_s.Base.Int.{pos}
use nfd_qo_s.Cs.Entry.{Data}
use nfd_qo_s.Fw.Forwarder.{
  with_entry, emit, dispatch, set_expiry_timer, insert_dead_nonce_list, satisfied, on_outgoing_data,
  on_data_unsolicited,
}
use nfd_qo_s.Table.Pit.{InRecord, in_face, clear_in_records, delete_out_record}
use nfd_qo_s.Fw.World.{
  LinkType, point_to_point, multi_access, ad_hoc, Pending, count_up, before_satisfy_interest,
  after_receive_data, signal_satisfy, World, Env,
}

-- `std::set<Face*>::insert`
unfoldable pub insert_face : ℕ → List ℕ → List ℕ
insert_face f [] = f ∷ []
insert_face f (g ∷ gs) =
    let rest = insert_face f gs in
    if ltb f g then f ∷ g ∷ gs else if f == g then g ∷ gs else g ∷ rest

unfoldable pub pending_faces : ℕ → List InRecord → List ℕ → List ℕ
unfolding insert_face
pending_faces now [] faces = faces
pending_faces now (r ∷ rs) faces =
    pending_faces now rs (if ltb now r.base.expiry then insert_face r.base.face faces else faces)

abbrev pub is_ad_hoc : LinkType → Bool
is_ad_hoc ad_hoc = true
is_ad_hoc point_to_point = false
is_ad_hoc multi_access = false

module _ {S : Type 0} (env : Env S) where
  -- One PIT entry is matched.
  unfoldable pub satisfy_only : ℕ → ℕ → Data → World S → Option (World S)
  satisfy_only now in_face d w = do
    timed ← set_expiry_timer env now (pos 0) w
    asked ←
        dispatch env now (after_receive_data in_face d) (emit env (signal_satisfy in_face d) timed)
    let listed =
        insert_dead_nonce_list env (some in_face)
          (record asked { pending = satisfied env d asked.pending })
    some (with_entry env (delete_out_record in_face listed.pending.entry) listed)

  -- One of several PIT entries that are matched.
  unfoldable pub satisfy_each : ℕ → ℕ → Data → World S → Option (World S)
  satisfy_each now in_face d w = do
    timed ← set_expiry_timer env now (pos 0) w
    asked ←
        dispatch env now (before_satisfy_interest in_face d)
          (emit env (signal_satisfy in_face d) timed)
    let listed =
        insert_dead_nonce_list env (some in_face)
          (record asked { pending = satisfied env d asked.pending })
    some (with_entry env (delete_out_record in_face (clear_in_records listed.pending.entry)) listed)

  -- The loop over the matches; the faces are the pending downstreams so far.
  unfoldable pub satisfy_all :
      ℕ → ℕ → Data → List Pending → List ℕ → World S → Option (World S × List Pending × List ℕ)
  unfolding pending_faces satisfy_each
  satisfy_all now in_face d [] faces w = some (w, [], faces)
  satisfy_all now in_face d (p ∷ ps) faces w = do
    w₁ ← satisfy_each now in_face d (record w { pending = p })
    (w₂, ps', faces') ← satisfy_all now in_face d ps (pending_faces now p.entry.in_records faces) w₁
    some (w₂, w₁.pending ∷ ps', faces')

  abbrev pub is_back : ℕ → ℕ → Bool
  is_back in_face f =
      (env.faces f).face_id == (env.faces in_face).face_id
      && not (is_ad_hoc (env.faces f).link_type)

  unfoldable pub send_all : ℕ → Data → List ℕ → World S → World S
  send_all in_face d [] w = w
  send_all in_face d (f ∷ fs) w =
      send_all in_face d fs (if is_back in_face f then w else on_outgoing_data env d f w)

  -- After the content store.
  abbrev pub satisfy :
      ℕ → ℕ → Data → Pending → List Pending → World S → Option (World S × List Pending)
  satisfy now in_face d p [] w = do
    w₁ ← satisfy_only now in_face d (record w { pending = p })
    some (w₁, w₁.pending ∷ [])
  satisfy now in_face d p (q ∷ qs) w = do
    (w₁, ps', faces) ← satisfy_all now in_face d (p ∷ q ∷ qs) [] w
    some (send_all in_face d faces w₁, ps')

  unfoldable pub on_incoming_data :
      ℕ → ℕ → Data → List Pending → World S → Option (World S × List Pending)
  unfolding satisfy_only satisfy_all send_all
  on_incoming_data now in_face d matches w₀ =
      let w = record w₀ {
        counters = record w₀.counters { n_in_data = count_up w₀.counters.n_in_data };
      } in
      if not (env.faces in_face).is_local && env.is_localhost d.name
      then some (w, matches)
      else elim matches [
        | [] ↦ (do w₁ ← on_data_unsolicited env now in_face d w; some (w₁, []))
        | p ∷ ps ↦ (do
          store ← env.insert_in_store now d false w.store
          satisfy now in_face d p ps (record w { store = store }))
      ]
