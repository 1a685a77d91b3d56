-- ===== src/Fw/IncomingData/Faces.antt =====
-- The faces that wait for Data, as an ordered set.
use nfd_qo_s.Base.{
  ℕ, ◌<◌, ◌≡◌, ◌↔◌, ◌⊎◌, inl, inr, List, [], ◌∷◌, arith, ltb, ◌==◌, if◌then◌else◌, Bool-cases, All,
  Any, All-weaken,
}
use nfd_qo_s.Table.Pit.{InRecord}
use nfd_qo_s.Fw.IncomingData.{insert_face, pending_faces}
use nfd_qo_s.Base.Occurs.{occurs}

abbrev pub IsIncreasing : List ℕ → Type 0
IsIncreasing [] = Unit
IsIncreasing (f ∷ fs) = All (λ g. f < g) fs × IsIncreasing fs

All-insert_face :
    (h f : ℕ) (fs : List ℕ) → h < f → All (λ g. h < g) fs → All (λ g. h < g) (insert_face f fs)
unfolding insert_face
All-insert_face h f [] less before = (less, tt)
All-insert_face h f (g ∷ gs) less (b, before) =
    ground (arith, less, b, before, All-insert_face h f gs less before)

pub insert_face-IsIncreasing :
    (f : ℕ) (fs : List ℕ) → IsIncreasing fs → IsIncreasing (insert_face f fs)
unfolding insert_face
insert_face-IsIncreasing f [] i = (tt, tt)
insert_face-IsIncreasing f (g ∷ gs) (before, i) =
    let rest = insert_face-IsIncreasing f gs i in
    elim (Bool-cases (ltb f g)) [
      | inl less ↦
          let f_g : f < g = ground (arith, less) in
          rw less (
            (f_g, All-weaken (λ h. g < h) (λ h. f < h) gs (λ h b. omega (arith, b, f_g)) before),
            (before, i),
          )
      | inr more ↦ elim (Bool-cases (f == g)) [
        | inl same ↦ rw (more, same) (before, i)
        | inr other ↦
            let g_f : g < f = ground (arith, more, other) in
            rw (more, other) (All-insert_face g f gs g_f before, rest)
      ]
    ]

pub occurs-insert_face :
    (h f : ℕ) (fs : List ℕ) → (0 < occurs h (insert_face f fs)) ↔ ((f ≡ h) ⊎ (0 < occurs h fs))
unfolding insert_face
occurs-insert_face h f [] = (λ h. ground (arith, h), λ h. ground (arith, h))
occurs-insert_face h f (g ∷ gs) =
    let rest = occurs-insert_face h f gs in
    (λ i. ground (arith, rest.0, i), λ i. ground (arith, rest.1, i))

-- An unexpired in-record of the face.
abbrev pub Waits : ℕ → ℕ → List InRecord → Type 0
Waits now g = Any (λ r. (now < r.base.expiry) × (r.base.face ≡ g))

pub pending_faces-IsIncreasing :
    (now : ℕ) (rs : List InRecord) (fs : List ℕ)
    → IsIncreasing fs
    → IsIncreasing (pending_faces now rs fs)
unfolding pending_faces
pending_faces-IsIncreasing now [] fs i = i
pending_faces-IsIncreasing now (r ∷ rs) fs i =
    pending_faces-IsIncreasing now rs
      (if ltb now r.base.expiry then insert_face r.base.face fs else fs)
      (ground (arith, insert_face-IsIncreasing r.base.face fs i, i))

added_face :
    (now g : ℕ) (r : InRecord) (fs : List ℕ)
    → let fs' = if ltb now r.base.expiry then insert_face r.base.face fs else fs in
      (0 < occurs g fs') ↔ (((now < r.base.expiry) × (r.base.face ≡ g)) ⊎ (0 < occurs g fs))
added_face now g r fs =
    let inserted = occurs-insert_face g r.base.face fs in
    elim (Bool-cases (ltb now r.base.expiry)) [
      | inl later ↦
          let now_r : now < r.base.expiry = ground (arith, later) in
          rw later (
            λ h. elim (inserted.0 h) [ inl same ↦ inl (now_r, same) | inr old ↦ inr old ],
            λ h. inserted.1 (elim h [ inl new ↦ inl new.1 | inr old ↦ inr old ]),
          )
      | inr over ↦ rw over (
        λ h. inr h,
        λ h. elim h [ inl new ↦ absurd (ground (arith, over, new.0)) | inr old ↦ old ],
      )
    ]

pub pending_faces-Waits :
    (now g : ℕ) (rs : List InRecord) (fs : List ℕ)
    → (0 < occurs g (pending_faces now rs fs)) ↔ (Waits now g rs ⊎ (0 < occurs g fs))
unfolding pending_faces
pending_faces-Waits now g [] fs = (λ h. inr h, elim [ inl w ↦ absurd w | inr h ↦ h ])
pending_faces-Waits now g (r ∷ rs) fs =
    let fs' = if ltb now r.base.expiry then insert_face r.base.face fs else fs in
    let later = pending_faces-Waits now g rs fs' in
    let here = added_face now g r fs in
    (
      λ h. elim (later.0 h) [
        | inl waits ↦ inl (inr waits)
        | inr old ↦ elim (here.0 old) [ inl new ↦ inl (inl new) | inr older ↦ inr older ]
      ],
      λ h. later.1 (elim h [
        | inl (inl new) ↦ inr (here.1 (inl new))
        | inl (inr waits) ↦ inl waits
        | inr old ↦ inr (here.1 (inr old))
      ]),
    )
