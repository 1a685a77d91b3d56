-- ===== src/Fw/Algorithm.antt =====
-- The free functions of daemon/fw/algorithm.cpp. The time and the scope prefixes' tests
-- (`LOCALHOST.isPrefixOf`, `LOCALHOP.isPrefixOf`, of ndn-cxx) are arguments.
pub mod Answers
use nfd_qo_s.Base.{
  ℕ, Bool, true, false, not, ◌&&◌, ◌||◌, Option, none, some, List, [], ◌∷◌, ltb, leb, ◌==◌,
  if◌then◌else◌,
}
use nfd_qo_s.Table.Pit.{Interest, FaceRecord, InRecord, OutRecord, PitEntry}

pub record Prefixes : Type 0 where
  pub is_localhost : List ℕ → Bool
  pub is_localhop : List ℕ → Bool

-- The faces by whether their scope is local.
unfoldable pub would_violate_scope : Prefixes → Bool → Interest → Bool → Bool
would_violate_scope prefixes in_local interest out_local =
    if out_local
    then false
    else if prefixes.is_localhost interest.name
    then true
    else if prefixes.is_localhop interest.name
    then not in_local
    else false

-- `std::any_of`
unfoldable pub any_of {ℓ} : {A : Type ℓ} → (A → Bool) → List A → Bool
any_of test [] = false
any_of test (x ∷ xs) = test x || any_of test xs

unfoldable pub can_forward_to_legacy : ℕ → PitEntry → ℕ → Bool
can_forward_to_legacy now e face =
    if any_of (λ r. r.base.face == face && leb now r.base.expiry) e.out_records
    then false
    else if not (any_of (λ r. not (r.base.face == face) && leb now r.base.expiry) e.in_records)
    then false
    else true

-- The bits of the `int` that says where a nonce occurs.
pub record DuplicateNonce : Type 0 where
  pub in_same : Bool
  pub in_other : Bool
  pub out_same : Bool
  pub out_other : Bool

abbrev pub duplicate_nonce_none : DuplicateNonce
duplicate_nonce_none = record {
  in_same = false;
  in_other = false;
  out_same = false;
  out_other = false;
}

abbrev pub note_in : ℕ → ℕ → FaceRecord → DuplicateNonce → DuplicateNonce
note_in nonce face r dnw =
    if r.last_nonce == nonce
    then (if r.face == face then record dnw { in_same = true } else record dnw { in_other = true })
    else dnw

pub scan_in : ℕ → ℕ → List InRecord → DuplicateNonce → DuplicateNonce
scan_in nonce face [] dnw = dnw
scan_in nonce face (r ∷ rs) dnw = scan_in nonce face rs (note_in nonce face r.base dnw)

abbrev pub note_out : ℕ → ℕ → FaceRecord → DuplicateNonce → DuplicateNonce
note_out nonce face r dnw =
    if r.last_nonce == nonce
    then (if r.face == face
        then record dnw { out_same = true }
        else record dnw { out_other = true })
    else dnw

pub scan_out : ℕ → ℕ → List OutRecord → DuplicateNonce → DuplicateNonce
scan_out nonce face [] dnw = dnw
scan_out nonce face (r ∷ rs) dnw = scan_out nonce face rs (note_out nonce face r.base dnw)

unfoldable pub find_duplicate_nonce : PitEntry → ℕ → ℕ → DuplicateNonce
unfolding scan_in scan_out
find_duplicate_nonce e nonce face =
    scan_out nonce face e.out_records (scan_in nonce face e.in_records duplicate_nonce_none)

abbrev pub is_pending : ℕ → OutRecord → Bool
is_pending now r = leb now r.base.expiry && elim r.incoming_nack [ none ↦ true | some n ↦ false ]

unfoldable pub has_pending_out_records : ℕ → PitEntry → Bool
unfolding any_of
has_pending_out_records now e = any_of (is_pending now) e.out_records

-- `std::max_element` from the greatest so far
pub latest : ℕ → List OutRecord → ℕ
latest best [] = best
latest best (r ∷ rs) =
    latest (if ltb best r.base.last_renewed then r.base.last_renewed else best) rs

-- `none` is the failed assertion for an entry without an out-record.
unfoldable pub get_last_outgoing : PitEntry → Option ℕ
unfolding latest
get_last_outgoing e = elim e.out_records [
  | [] ↦ none
  | r ∷ rs ↦ some (latest r.base.last_renewed rs)
]
