-- ===== src/Fw/Algorithm/Answers.antt =====
-- What the answers of the functions over a PIT entry mean.
use nfd_qo_s.Base.{
  ℕ, ◌≤◌, ◌<◌, ◌≡◌, refl, ap, ◌≢◌, ◌↔◌, ◌⊎◌, Bool, true, false, not, ◌&&◌, ◌||◌, none, some, List,
  [], ◌∷◌, arith, ltb, leb, ◌==◌, if◌then◌else◌, All, Any, all,
}
use nfd_qo_s.Fw.Algorithm.{
  Prefixes, would_violate_scope, any_of, can_forward_to_legacy, DuplicateNonce,
  duplicate_nonce_none, note_in, scan_in, note_out, scan_out, find_duplicate_nonce, is_pending,
  has_pending_out_records, latest, get_last_outgoing,
}
use nfd_qo_s.Table.Pit.{Interest, FaceRecord, InRecord, OutRecord, PitEntry}

-- An Interest may not leave by a non-local face exactly if its name is under the localhost prefix, or
-- it is under the localhop prefix and came from a non-local face.
pub would_violate_scope_lem :
    (prefixes : Prefixes) (in_local : Bool) (interest : Interest) (out_local : Bool)
    → (would_violate_scope prefixes in_local interest out_local ≡ true) ↔ (
        (out_local ≡ false)
        × ((prefixes.is_localhost interest.name ≡ true)
            ⊎ ((prefixes.is_localhop interest.name ≡ true) × (in_local ≡ false))))
unfolding would_violate_scope
would_violate_scope_lem prefixes in_local interest out_local = ground arith

any_of_iff {ℓ} :
    {A : Type ℓ} (test : A → Bool) (P : A → Type 0) (xs : List A)
    → ((x : A) → (test x ≡ true) ↔ P x)
    → (any_of test xs ≡ true) ↔ Any P xs
unfolding any_of
any_of_iff test P [] h = ground arith
any_of_iff test P (x ∷ xs) h = ground (arith, h x, any_of_iff test P xs h)

note_in-tests :
    (nonce face : ℕ) (r : FaceRecord) (d : DuplicateNonce)
    → let d' = note_in nonce face r d in
      (d'.in_same ≡ (d.in_same || (r.last_nonce == nonce && r.face == face)))
      × (d'.in_other ≡ (d.in_other || (r.last_nonce == nonce && not (r.face == face))))
      × (d'.out_same ≡ d.out_same)
      × (d'.out_other ≡ d.out_other)
note_in-tests nonce face r d = ground arith

scan_in-any_of :
    (nonce face : ℕ) (rs : List InRecord) (d : DuplicateNonce)
    → let d' = scan_in nonce face rs d in
      (d'.in_same
        ≡ (d.in_same || any_of (λ r. r.base.last_nonce == nonce && r.base.face == face) rs))
      × (d'.in_other ≡ (
          d.in_other || any_of (λ r. r.base.last_nonce == nonce && not (r.base.face == face)) rs))
      × (d'.out_same ≡ d.out_same)
      × (d'.out_other ≡ d.out_other)
unfolding scan_in any_of
scan_in-any_of nonce face [] d = ground arith
scan_in-any_of nonce face (r ∷ rs) d = ground (
  arith,
  note_in-tests nonce face r.base d,
  scan_in-any_of nonce face rs (note_in nonce face r.base d),
)

note_out-tests :
    (nonce face : ℕ) (r : FaceRecord) (d : DuplicateNonce)
    → let d' = note_out nonce face r d in
      (d'.out_same ≡ (d.out_same || (r.last_nonce == nonce && r.face == face)))
      × (d'.out_other ≡ (d.out_other || (r.last_nonce == nonce && not (r.face == face))))
      × (d'.in_same ≡ d.in_same)
      × (d'.in_other ≡ d.in_other)
note_out-tests nonce face r d = ground arith

scan_out-any_of :
    (nonce face : ℕ) (rs : List OutRecord) (d : DuplicateNonce)
    → let d' = scan_out nonce face rs d in
      (d'.out_same
        ≡ (d.out_same || any_of (λ r. r.base.last_nonce == nonce && r.base.face == face) rs))
      × (d'.out_other ≡ (
          d.out_other || any_of (λ r. r.base.last_nonce == nonce && not (r.base.face == face)) rs))
      × (d'.in_same ≡ d.in_same)
      × (d'.in_other ≡ d.in_other)
unfolding scan_out any_of
scan_out-any_of nonce face [] d = ground arith
scan_out-any_of nonce face (r ∷ rs) d = ground (
  arith,
  note_out-tests nonce face r.base d,
  scan_out-any_of nonce face rs (note_out nonce face r.base d),
)

-- Each of the four bits is set exactly if a record of its kind has the nonce, on the same face or on
-- another one.
pub find_duplicate_nonce_lem :
    (e : PitEntry) (nonce face : ℕ)
    → let d = find_duplicate_nonce e nonce face in
      ((d.in_same ≡ true)
        ↔ Any (λ r. (r.base.last_nonce ≡ nonce) × (r.base.face ≡ face)) e.in_records)
      × ((d.in_other ≡ true)
          ↔ Any (λ r. (r.base.last_nonce ≡ nonce) × (r.base.face ≢ face)) e.in_records)
      × ((d.out_same ≡ true)
          ↔ Any (λ r. (r.base.last_nonce ≡ nonce) × (r.base.face ≡ face)) e.out_records)
      × ((d.out_other ≡ true)
          ↔ Any (λ r. (r.base.last_nonce ≡ nonce) × (r.base.face ≢ face)) e.out_records)
unfolding find_duplicate_nonce
find_duplicate_nonce_lem e nonce face =
    let (is, io, _, _) = scan_in-any_of nonce face e.in_records duplicate_nonce_none in
    let (os, oo, is', io') =
      scan_out-any_of nonce face e.out_records
        (scan_in nonce face e.in_records duplicate_nonce_none) in
    let (_, _, os', oo') = scan_in-any_of nonce face e.in_records duplicate_nonce_none in
    (
      rw (is', is) (any_of_iff _ _ e.in_records (λ r. ground arith)),
      rw (io', io) (any_of_iff _ _ e.in_records (λ r. ground arith)),
      rw (os, os') (any_of_iff _ _ e.out_records (λ r. ground arith)),
      rw (oo, oo') (any_of_iff _ _ e.out_records (λ r. ground arith)),
    )

no_unexpired :
    (now face : ℕ) (rs : List OutRecord)
    → (any_of (λ r. r.base.face == face && leb now r.base.expiry) rs ≡ false)
      ↔ All (λ r. (r.base.face ≢ face) ⊎ (r.base.expiry < now)) rs
unfolding any_of
no_unexpired now face [] = ground arith
no_unexpired now face (r ∷ rs) = ground (arith, no_unexpired now face rs)

-- Forwarding is allowed exactly if the face has no unexpired out-record and some other face has an
-- unexpired in-record.
pub can_forward_to_legacy_lem :
    (now : ℕ) (e : PitEntry) (face : ℕ)
    → (can_forward_to_legacy now e face ≡ true) ↔ (
        All (λ r. (r.base.face ≢ face) ⊎ (r.base.expiry < now)) e.out_records
        × Any (λ r. (r.base.face ≢ face) × (now ≤ r.base.expiry)) e.in_records)
unfolding can_forward_to_legacy
can_forward_to_legacy_lem now e face =
    let sent = no_unexpired now face e.out_records in
    let asked =
      any_of_iff (λ r. not (r.base.face == face) && leb now r.base.expiry)
        (λ r. (r.base.face ≢ face) × (now ≤ r.base.expiry)) e.in_records (λ r. ground arith) in
    ground (arith, sent, asked)

latest_lem :
    (best : ℕ) (rs : List OutRecord)
    → (best ≤ latest best rs)
      × All (λ r. r.base.last_renewed ≤ latest best rs) rs
      × ((latest best rs ≡ best) ⊎ Any (λ r. r.base.last_renewed ≡ latest best rs) rs)
unfolding latest
latest_lem best [] = ground arith
latest_lem best (r ∷ rs) =
    ground
      (arith, latest_lem (if ltb best r.base.last_renewed then r.base.last_renewed else best) rs)

-- `getLastOutgoing` fails only on an entry without out-records. Otherwise no out-record was renewed
-- later than it says, and one was renewed then.
pub get_last_outgoing_lem :
    (e : PitEntry) (r : OutRecord) (rs : List OutRecord)
    → e.out_records ≡ r ∷ rs
    → (last : ℕ) × (get_last_outgoing e ≡ some last)
      × All (λ r. r.base.last_renewed ≤ last) e.out_records
      × Any (λ r. r.base.last_renewed ≡ last) e.out_records
unfolding get_last_outgoing
get_last_outgoing_lem e r rs h =
    let (bound, all, reached) = latest_lem r.base.last_renewed rs in
    (latest r.base.last_renewed rs, rw h, rw h (bound, all), rw h (ground arith))

none_pending :
    (now : ℕ) (rs : List OutRecord)
    → (any_of (is_pending now) rs ≡ false)
      ↔ All (λ r. (r.base.expiry < now) ⊎ (r.incoming_nack ≢ none)) rs
unfolding any_of
none_pending now [] = ground arith
none_pending now (r ∷ rs) = ground (arith, none_pending now rs)

-- An entry is not pending exactly if each of its out-records is expired or nacked.
pub has_pending_none :
    (now : ℕ) (e : PitEntry)
    → (has_pending_out_records now e ≡ false)
      ↔ All (λ r. (r.base.expiry < now) ⊎ (r.incoming_nack ≢ none)) e.out_records
unfolding has_pending_out_records
has_pending_none now e = none_pending now e.out_records

no_record : (now : ℕ) → any_of (is_pending now) [] ≡ false
unfolding any_of
no_record now = refl

-- A pending entry has out-records, so that its last renewal is defined.
pub pending_last :
    (now : ℕ) (e : PitEntry)
    → has_pending_out_records now e ≡ true
    → (last : ℕ) × (get_last_outgoing e ≡ some last)
      × All (λ r. r.base.last_renewed ≤ last) e.out_records
      × Any (λ r. r.base.last_renewed ≡ last) e.out_records
unfolding has_pending_out_records
pending_last now e h = at e.out_records refl
  where
    at :
        (rs : List OutRecord)
        → e.out_records ≡ rs
        → (last : ℕ) × (get_last_outgoing e ≡ some last)
          × All (λ r. r.base.last_renewed ≤ last) e.out_records
          × Any (λ r. r.base.last_renewed ≡ last) e.out_records
    at [] same = absurd (ground (arith, no_record now, ap (any_of (is_pending now)) same))
    at (r ∷ rs) same = get_last_outgoing_lem e r rs same
