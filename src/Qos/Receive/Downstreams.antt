-- ===== src/Qos/Receive/Downstreams.antt =====
-- The faces that wait for Data: those of the in-records that are `pending downstreams`.
use nfd_qo_s.Fw.IncomingData.{insert_face}
use nfd_qo_s.Base.{
  ℕ, ◌<◌, ◌≡◌, refl, ◌↔◌, ◌⊎◌, inl, inr, Bool, true, false, not, ◌&&◌, some, List, [], ◌∷◌, ltb,
  ◌==◌, if◌then◌else◌, Bool-cases, Any,
}
use nfd_qo_s.Qos.Receive.{pending_downstreams, Arrived, item_of}
use nfd_qo_s.Qos.Send.{has_faces}
use nfd_qo_s.Table.Pit.{InRecord}
use nfd_qo_s.Base.Occurs.{occurs}
use nfd_qo_s.Fw.IncomingData.Faces.{IsIncreasing, insert_face-IsIncreasing, occurs-insert_face}

pub has_faces-item_of :
    (a : Arrived) (g : ℕ) → has_faces (record (item_of a) { outface = some g }) ≡ true
unfolding has_faces
has_faces-item_of a g = refl

-- The in-record makes its face a pending downstream: it has not expired, and the Data did not come
-- from there.
abbrev pub AwaitsData : Arrived → ℕ → ℕ → InRecord → Type 0
AwaitsData a pit_now g r =
    (r.base.face ≡ g)
    × ((ltb pit_now r.base.expiry
          && not (
              (a.faces r.base.face).face_id == (a.faces a.in_face).face_id
              && not (a.faces r.base.face).is_ad_hoc))
        ≡ true)

pub pending_downstreams-IsIncreasing :
    (a : Arrived) (now : ℕ) (rs : List InRecord) (found : List ℕ)
    → IsIncreasing found
    → IsIncreasing (pending_downstreams a.faces now a.in_face rs found)
unfolding pending_downstreams
pending_downstreams-IsIncreasing a now [] found i = i
pending_downstreams-IsIncreasing a now (r ∷ rs) found i =
    pending_downstreams-IsIncreasing a now rs _ (
      keep (
        ltb now r.base.expiry
        && not (
            (a.faces r.base.face).face_id == (a.faces a.in_face).face_id
            && not (a.faces r.base.face).is_ad_hoc)))
  where
    keep : (b : Bool) → IsIncreasing (if b then insert_face r.base.face found else found)
    keep true = insert_face-IsIncreasing r.base.face found i
    keep false = i

pub pending_downstreams-AwaitsData :
    (a : Arrived) (now g : ℕ) (rs : List InRecord) (found : List ℕ)
    → (0 < occurs g (pending_downstreams a.faces now a.in_face rs found))
      ↔ (Any (AwaitsData a now g) rs ⊎ (0 < occurs g found))
unfolding pending_downstreams
pending_downstreams-AwaitsData a now g [] found =
    (λ h. inr h, elim [ inl w ↦ absurd w | inr h ↦ h ])
pending_downstreams-AwaitsData a now g (r ∷ rs) found =
    let waits =
      ltb now r.base.expiry
      && not (
          (a.faces r.base.face).face_id == (a.faces a.in_face).face_id
          && not (a.faces r.base.face).is_ad_hoc) in
    elim (Bool-cases waits) [
      | inl here ↦
          let later = pending_downstreams-AwaitsData a now g rs (insert_face r.base.face found) in
          let inserted = occurs-insert_face g r.base.face found in
          rw here (
            λ h. elim (later.0 h) [
              | inl w ↦ inl (inr w)
              | inr old ↦ elim (inserted.0 old) [
                | inl same ↦ inl (inl (same, refl))
                | inr older ↦ inr older
              ]
            ],
            λ h. later.1 (elim h [
              | inl (inl w) ↦ inr (inserted.1 (inl w.0))
              | inl (inr w) ↦ inl w
              | inr old ↦ inr (inserted.1 (inr old))
            ]),
          )
      | inr not_here ↦
          let later = pending_downstreams-AwaitsData a now g rs found in
          rw not_here (
            λ h. elim (later.0 h) [ inl w ↦ inl (inr w) | inr old ↦ inr old ],
            λ h.
                later.1
                  (elim h [ inl (inl w) ↦ absurd (cc) | inl (inr w) ↦ inl w | inr old ↦ inr old ]),
          )
    ]
