-- ===== src/Table/Pit/Entry.antt =====
-- What the operations of a PIT entry do to the records that its look-ups find.
use mathlib.Core.Option
use nfd_qo_s.Base.{ℕ, ◌+◌, ◌≡◌, refl, ap, ◌∙◌, ◌≢◌, none, some}
use nfd_qo_s.Table.Pit.{
  Interest, new_face_record, lifetime_of, new_in_record, update_in_record, new_out_record,
  update_out_record, PitEntry, in_face, out_face, get_in_record, insert_or_update_in_record,
  delete_in_record, get_out_record, insert_or_update_out_record, delete_out_record,
}
use nfd_qo_s.Table.Records.{
  HasOnePerFace, find-erase_other, HasOnePerFace-erase_record, find-erase_same, face_of_found,
  find-insert_same, find-insert_other, HasOnePerFace-insert,
}

-- No face has two in-records, or two out-records.
pub record IsValid (e : PitEntry) : Type 0 where
  pub in_distinct : HasOnePerFace in_face e.in_records
  pub out_distinct : HasOnePerFace out_face e.out_records

module _ (default_lifetime now face : ℕ) (interest : Interest) (e : PitEntry)
    (valid : IsValid e) where
  abbrev with_in : PitEntry
  with_in = insert_or_update_in_record default_lifetime now face interest e

  abbrev with_out : PitEntry
  with_out = insert_or_update_out_record default_lifetime now face interest e

  -- On a valid entry `insertOrUpdateInRecord` leaves an in-record for the face with the Interest, its
  -- nonce, the time and the expiry; the in-record of another face and the out-records stay, and the
  -- entry is valid afterwards.
  pub insert_or_update_in_record_lem :
      (g : ℕ)
      → g ≢ face
      → (get_in_record face with_in
          ≡ some (record {
            base = record {
              face = face;
              last_nonce = interest.nonce;
              last_renewed = now;
              expiry = now + lifetime_of default_lifetime interest.lifetime;
            };
            interest = some interest;
          }))
        × (get_in_record g with_in ≡ get_in_record g e)
        × (with_in.out_records ≡ e.out_records)
        × IsValid with_in
  unfolding insert_or_update_in_record
  insert_or_update_in_record_lem g other =
      let update = update_in_record default_lifetime now interest in
      let made = new_in_record face in
      (
        find-insert_same in_face update (λ r. refl) face made refl e.in_records
            ∙ ap (λ f. some (update (record made { base = new_face_record f })))
                (face_of_found in_face face made e.in_records refl),
        find-insert_other in_face update (λ r. refl) face made refl e.in_records g other,
        refl,
        record {
          in_distinct =
              HasOnePerFace-insert in_face update (λ r. refl) face made refl e.in_records
                valid.in_distinct;
          out_distinct = valid.out_distinct;
        },
      )

  pub get_out_record-insert :
      let old = Option.get_or (get_out_record face e) (new_out_record face) in
      (get_out_record face with_out
        ≡ some (record old {
          base = record {
            face = face;
            last_nonce = interest.nonce;
            last_renewed = now;
            expiry = now + lifetime_of default_lifetime interest.lifetime;
          };
        }))
  unfolding insert_or_update_out_record
  get_out_record-insert =
      let update = update_out_record default_lifetime now interest in
      let made = new_out_record face in
      let old = Option.get_or (get_out_record face e) made in
      find-insert_same out_face update (λ r. refl) face made refl e.out_records
      ∙ ap (λ f. some (update (record old { base = new_face_record f })))
          (face_of_found out_face face made e.out_records refl)

  -- On a valid entry `insertOrUpdateOutRecord` leaves an out-record for the face with the Interest's
  -- nonce, the time and the expiry, which keeps the nack and the suppression interval that it had;
  -- the out-record of another face and the in-records stay, and the entry is valid afterwards.
  pub insert_or_update_out_record_lem :
      (g : ℕ)
      → g ≢ face
      → let old = Option.get_or (get_out_record face e) (new_out_record face) in
        (get_out_record face with_out
          ≡ some (record old {
            base = record {
              face = face;
              last_nonce = interest.nonce;
              last_renewed = now;
              expiry = now + lifetime_of default_lifetime interest.lifetime;
            };
          }))
        × (get_out_record g with_out ≡ get_out_record g e)
        × (with_out.in_records ≡ e.in_records)
        × IsValid with_out
  unfolding insert_or_update_out_record
  insert_or_update_out_record_lem g other =
      let update = update_out_record default_lifetime now interest in
      let made = new_out_record face in
      (
        get_out_record-insert,
        find-insert_other out_face update (λ r. refl) face made refl e.out_records g other,
        refl,
        record {
          in_distinct = valid.in_distinct;
          out_distinct =
              HasOnePerFace-insert out_face update (λ r. refl) face made refl e.out_records
                valid.out_distinct;
        },
      )

-- The deletions of a face's records leave a valid entry without them; the records of another face
-- stay.
pub delete_records_lem :
    (face g : ℕ) (e : PitEntry)
    → IsValid e
    → g ≢ face
    → let e' = delete_out_record face (delete_in_record face e) in
      (get_in_record face e' ≡ none)
      × (get_out_record face e' ≡ none)
      × (get_in_record g e' ≡ get_in_record g e)
      × (get_out_record g e' ≡ get_out_record g e)
      × IsValid e'
unfolding delete_in_record delete_out_record
delete_records_lem face g e valid other = (
  find-erase_same in_face face e.in_records valid.in_distinct,
  find-erase_same out_face face e.out_records valid.out_distinct,
  find-erase_other in_face face g e.in_records other,
  find-erase_other out_face face g e.out_records other,
  record {
    in_distinct = HasOnePerFace-erase_record in_face face e.in_records valid.in_distinct;
    out_distinct = HasOnePerFace-erase_record out_face face e.out_records valid.out_distinct;
  },
)
