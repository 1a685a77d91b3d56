-- ===== src/Fw/FaceTable.antt =====
-- `FaceTable` of daemon/fw/face-table.cpp. A face is a number that stands for the object; the identifier
-- that each face stores is in `ids`, where a face that is missing has the invalid one. `m_faces` is
-- searched by its key only, so the order of its pairs is left open. `none` is a failed assertion.
pub mod Identifiers
use nfd_qo_s.Base.{
  ℕ, ◌+◌, ◌%◌, ◌^◌, Bool, true, false, not, ◌&&◌, Option, none, some, List, [], ◌∷◌, ltb, leb, ◌==◌,
  if◌then◌else◌,
}
use nfd_qo_s.Base.Assoc.{lookup_or, insert}
use nfd_qo_s.Table.Records.{find_record, erase_record}

abbrev pub invalid_faceid : ℕ
invalid_faceid = 0

abbrev pub faceid_reserved_max : ℕ
faceid_reserved_max = 255

pub record FaceTable : Type 0 where
  pub last_face_id : ℕ
  pub faces : List (ℕ × ℕ)
  pub ids : List (ℕ × ℕ)

abbrev pub new_face_table : List (ℕ × ℕ) → FaceTable
new_face_table ids = record { last_face_id = faceid_reserved_max; faces = []; ids = ids }

abbrev pub key : ℕ × ℕ → ℕ
key p = p.0

abbrev pub id_of : ℕ → FaceTable → ℕ
id_of face t = lookup_or invalid_faceid face t.ids

abbrev pub get_face : ℕ → FaceTable → Option (ℕ × ℕ)
get_face id t = find_record key id t.faces

-- The signal `afterAdd` carries the face.
unfoldable pub add_impl : ℕ → ℕ → FaceTable → Option (FaceTable × Option ℕ)
add_impl face id t = elim (get_face id t) [
  | some there ↦ none
  | none ↦ some (record t { faces = (id, face) ∷ t.faces; ids = insert face id t.ids }, some face)
]

unfoldable pub add_face : ℕ → FaceTable → Option (FaceTable × Option ℕ)
add_face face t =
    let known : Bool = elim (get_face (id_of face t) t) [ none ↦ false | some there ↦ true ] in
    if not (id_of face t == invalid_faceid) && known
    then some (t, none)
    else (let id = (t.last_face_id + 1) % 2 ^ 64 in
        if leb id faceid_reserved_max
        then none
        else add_impl face id (record t { last_face_id = id }))

unfoldable pub add_reserved : ℕ → ℕ → FaceTable → Option (FaceTable × Option ℕ)
add_reserved face id t =
    if not (id_of face t == invalid_faceid)
    then none
    else if ltb faceid_reserved_max id
    then none
    else add_impl face id t

-- The signal `beforeRemove` carries the face.
unfoldable pub remove_face_id : ℕ → FaceTable → Option (FaceTable × ℕ)
remove_face_id id t = elim (get_face id t) [
  | none ↦ none
  | some (i, face) ↦ some (
    record t { faces = erase_record key id t.faces; ids = insert face invalid_faceid t.ids },
    face,
  )
]
