-- ===== src/Fw/FaceTable/Identifiers.antt =====
-- The identifiers that the table gives are never given again.
use nfd_qo_s.Base.{
  ℕ, ◌+◌, ◌%◌, ◌^◌, ◌≤◌, ◌<◌, ◌≡◌, refl, ◌≢◌, none, some, List, [], ◌∷◌, arith, All, All-weaken,
}
use nfd_qo_s.Base.Assoc.{lookup_or, insert, lookup_or-insert}
use nfd_qo_s.Table.Records.{
  HasOnePerFace, find_record, erase_record, find_none, All-of_find, All-erase_record,
  find-erase_other, HasOnePerFace-erase_record, find-erase_same, All-find_record,
}
use nfd_qo_s.Fw.FaceTable.{
  invalid_faceid, faceid_reserved_max, FaceTable, key, id_of, get_face, add_impl, add_face,
  remove_face_id,
}

-- A pair of the table: the face stores its key, which is valid and was given before.
abbrev IsKnown : ℕ → List (ℕ × ℕ) → ℕ × ℕ → Type 0
IsKnown last ids (id, face) = (lookup_or invalid_faceid face ids ≡ id) × (0 < id) × (id ≤ last)

-- Each key occurs once and is what its face stores; no identifier above the last one is in use.
pub record IsTable (t : FaceTable) : Type 0 where
  pub above_reserved : faceid_reserved_max ≤ t.last_face_id
  pub one_each : HasOnePerFace key t.faces
  pub known : All (IsKnown t.last_face_id t.ids) t.faces

unused :
    (last id : ℕ) (ids faces : List (ℕ × ℕ))
    → last < id
    → All (IsKnown last ids) faces
    → All (λ p. key p ≢ id) faces
unused last id ids faces h known = All-weaken _ _ faces (λ (i, f) k. ground arith) known

IsKnown-insert :
    (last last' face id : ℕ) (ids faces : List (ℕ × ℕ))
    → last ≤ last'
    → All (IsKnown last ids) faces
    → All (λ p. key p ≢ lookup_or invalid_faceid face ids) faces
    → All (IsKnown last' (insert face id ids)) faces
IsKnown-insert last last' face id ids [] h known other = tt
IsKnown-insert last last' face id ids ((i, f) ∷ faces) h known other = (
  ground (arith, lookup_or-insert invalid_faceid face f id ids),
  IsKnown-insert last last' face id ids faces h known.1 other.1,
)

add_face-fresh :
    (face : ℕ) (t : FaceTable)
    → id_of face t ≡ invalid_faceid
    → faceid_reserved_max ≤ t.last_face_id
    → t.last_face_id + 1 < 2 ^ 64
    → get_face (t.last_face_id + 1) t ≡ none
    → add_face face t
      ≡ some (
        record t {
          last_face_id = t.last_face_id + 1;
          faces = (t.last_face_id + 1, face) ∷ t.faces;
          ids = insert face (t.last_face_id + 1) t.ids;
        },
        some face,
      )
unfolding add_face add_impl
add_face-fresh face t fresh above room free =
    let same : (t.last_face_id + 1) % 2 ^ 64 ≡ t.last_face_id + 1 = omega arith in
    rw (fresh, same) (ground (arith, free))

-- Adding a face that has no identifier makes no fault before the identifiers are used up: the face
-- gets the next identifier, which no face of the table had, and is found by it and announced; other
-- look-ups are as before.
pub add_face_lem :
    (face other : ℕ) (t : FaceTable)
    → IsTable t
    → id_of face t ≡ invalid_faceid
    → t.last_face_id + 1 < 2 ^ 64
    → other ≢ t.last_face_id + 1
    → (t' : FaceTable) × (add_face face t ≡ some (t', some face))
      × IsTable t'
      × (t'.last_face_id ≡ t.last_face_id + 1)
      × (get_face (t.last_face_id + 1) t ≡ none)
      × (get_face (t.last_face_id + 1) t' ≡ some (t.last_face_id + 1, face))
      × (id_of face t' ≡ t.last_face_id + 1)
      × (get_face other t' ≡ get_face other t)
unfolding find_record
add_face_lem face other t valid fresh room differ =
    let id = t.last_face_id + 1 in
    let free = unused t.last_face_id id t.ids t.faces (omega arith) valid.known in
    let t' : FaceTable = record {
      last_face_id = id;
      faces = (id, face) ∷ t.faces;
      ids = insert face id t.ids;
    } in
    let stored = lookup_or-insert invalid_faceid face face id t.ids in
    let unset =
      All-weaken (IsKnown t.last_face_id t.ids) (λ p. key p ≢ lookup_or invalid_faceid face t.ids)
        t.faces (λ (i, f) k. ground arith) valid.known in
    (
      t',
      add_face-fresh face t fresh (valid.above_reserved) room (find_none key id t.faces free),
      record {
        above_reserved = omega (arith, valid.above_reserved);
        one_each = (free, valid.one_each);
        known = (
          (ground (arith, stored), omega arith, omega arith),
          IsKnown-insert t.last_face_id id face id t.ids t.faces (omega arith) valid.known unset,
        );
      },
      refl,
      find_none key id t.faces free,
      ground arith,
      ground (arith, stored),
      ground arith,
    )

-- Removing a face that the table has makes no fault: the face loses its identifier, which is not
-- found afterwards, and is announced; other look-ups are as before, and the last identifier given stays.
pub remove_face_id_lem :
    (id face other : ℕ) (t : FaceTable)
    → IsTable t
    → get_face id t ≡ some (id, face)
    → other ≢ id
    → (t' : FaceTable) × (remove_face_id id t ≡ some (t', face))
      × IsTable t'
      × (t'.last_face_id ≡ t.last_face_id)
      × (get_face id t' ≡ none)
      × (id_of face t' ≡ invalid_faceid)
      × (get_face other t' ≡ get_face other t)
unfolding remove_face_id
remove_face_id_lem id face other t valid here differ =
    let gone = find-erase_same key id t.faces valid.one_each in
    let t' : FaceTable = record t {
      faces = erase_record key id t.faces;
      ids = insert face invalid_faceid t.ids;
    } in
    let stored = lookup_or-insert invalid_faceid face face invalid_faceid t.ids in
    let (same, _, _) =
      All-find_record key (IsKnown t.last_face_id t.ids) id t.faces (id, face) valid.known here in
    let kept = All-erase_record key (IsKnown t.last_face_id t.ids) id t.faces valid.known in
    let apart = All-of_find key id (erase_record key id t.faces) gone in
    (
      t',
      ground (arith, here),
      record {
        above_reserved = valid.above_reserved;
        one_each = HasOnePerFace-erase_record key id t.faces valid.one_each;
        known =
            IsKnown-insert t.last_face_id t.last_face_id face invalid_faceid t.ids
              (erase_record key id t.faces) (omega arith) kept (rw same apart);
      },
      refl,
      gone,
      ground (arith, stored),
      find-erase_other key id other t.faces differ,
    )
