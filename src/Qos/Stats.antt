-- ===== src/Qos/Stats.antt =====
-- The loss rates that `QosStrategy` keeps by name prefix and face, daemon/fw/qos-strategy.cpp. A
-- name is the list of its components. The arithmetic of `double` is a parameter: `lost` and
-- `received` are the averages `beta * 1. + (1. - beta) * x` and `beta * 0. + (1. - beta) * x`. The
-- two latency fields are never read.
pub mod Prefixes
use nfd_qo_s.Base.{
  ℕ, ◌-◌, Bool, true, false, not, ◌&&◌, Option, none, some, List, [], ◌∷◌, ltb, ◌==◌, if◌then◌else◌,
  length, take,
}
use nfd_qo_s.Table.Pit.{OutRecord, in_face}
use nfd_qo_s.Base.Assoc.{lookup_or, insert}

pub record Rates : Type 1 where
  pub Carrier : Type 0
  pub zero_rate : Carrier
  pub lost : Carrier → Carrier
  pub received : Carrier → Carrier
  pub survival : Carrier → Carrier

-- The components that `getPrType` tells apart.
pub record PrTypes : Type 0 where
  pub type_one : ℕ
  pub type_two : ℕ
  pub type_three : ℕ

unfoldable pub get_pr_type : PrTypes → List ℕ → ℕ
get_pr_type types [] = 715
get_pr_type types (c ∷ []) = 715
get_pr_type types (c ∷ d ∷ ds) =
    if d == types.type_one
    then 0
    else if d == types.type_two
    then 1
    else if d == types.type_three
    then 2
    else 715

-- `getSubName(0, size() - n)`, where a difference below 0 wraps and takes the whole name
abbrev pub without_last : ℕ → List ℕ → List ℕ
without_last n name = if ltb (length name) n then name else take (length name - n) name

-- The keys of `m_faceStats`: that of `afterReceiveInterest`, and that of `beforeSatisfyInterest` and
-- `beforeExpirePendingInterest`.
abbrev pub interest_prefix : List ℕ → List ℕ
interest_prefix = without_last 1

abbrev pub outcome_prefix : List ℕ → List ℕ
outcome_prefix = without_last 2

unfoldable pub same_name : List ℕ → List ℕ → Bool
same_name [] [] = true
same_name [] (d ∷ ds) = false
same_name (c ∷ cs) [] = false
same_name (c ∷ cs) (d ∷ ds) = c == d && same_name cs ds

-- The rest of the rejected names, and whether the name was one.
unfoldable pub was_rejected : List ℕ → List (List ℕ) → List (List ℕ) × Bool
unfolding same_name
was_rejected name [] = ([], false)
was_rejected name (r ∷ rs) =
    let (rest, found) = was_rejected name rs in
    if same_name r name then (rs, true) else (r ∷ rest, found)

module _ (rates : Rates) where
  open rates use {Carrier}

  pub record FaceStats : Type 0 where
    pub abs_loss_rate : List (ℕ × Carrier)
    pub rela_loss_rate : List (ℕ × Carrier)
    pub bootstrapped : Bool
    pub total_packets_sent : ℕ

  unfoldable pub find_stats : List ℕ → List (List ℕ × FaceStats) → Option FaceStats
  unfolding same_name
  find_stats key [] = none
  find_stats key ((name, s) ∷ rest) = if same_name name key then some s else find_stats key rest

  -- `m_faceStats[key]` of a key that is there is changed.
  unfoldable pub change_stats :
      (FaceStats → FaceStats) → List ℕ → List (List ℕ × FaceStats) → List (List ℕ × FaceStats)
  unfolding same_name
  change_stats change key [] = []
  change_stats change key ((name, s) ∷ rest) =
      let later = change_stats change key rest in
      if same_name name key then (name, change s) ∷ rest else (name, s) ∷ later

  -- A rate of a face, which is 0 at first, is changed.
  abbrev pub update_rate : (Carrier → Carrier) → ℕ → List (ℕ × Carrier) → List (ℕ × Carrier)
  update_rate average face m = insert face (average (lookup_or rates.zero_rate face m)) m

  -- The probability without a bootstrapped prefix is 0.
  unfoldable pub get_face_prob : FaceStats → ℕ → Bool → Carrier
  get_face_prob s face rel =
      if not s.bootstrapped
      then rates.zero_rate
      else if not rel
      then rates.survival (lookup_or rates.zero_rate face s.abs_loss_rate)
      else rates.survival (lookup_or rates.zero_rate face s.rela_loss_rate)

  -- The loop over the other out-records of an entry that is satisfied.
  unfoldable pub note_others : ℕ → List OutRecord → FaceStats → FaceStats
  note_others in_face [] s = s
  note_others in_face (r ∷ rs) s = note_others in_face rs (
      if in_face == r.base.face
      then s
      else record s { abs_loss_rate = update_rate rates.lost r.base.face s.abs_loss_rate })

  unfoldable pub before_satisfy_interest :
      List ℕ → ℕ → List OutRecord → List (List ℕ × FaceStats) → List (List ℕ × FaceStats)
  unfolding note_others change_stats
  before_satisfy_interest name in_face out_records stats =
      change_stats
        (λ s. note_others in_face out_records (record s {
          abs_loss_rate = update_rate rates.received in_face s.abs_loss_rate;
          rela_loss_rate = update_rate rates.received in_face s.rela_loss_rate;
        }))
        (outcome_prefix name) stats

  -- The loop over the out-records of an entry that expires. Both assignments are to `absLossRate`,
  -- the second from `relaLossRate`, which an access fills in where the face is missing.
  unfoldable pub note_expired : List OutRecord → FaceStats → FaceStats
  note_expired [] s = s
  note_expired (r ∷ rs) s =
      let face = r.base.face in
      let rela = lookup_or rates.zero_rate face s.rela_loss_rate in
      note_expired rs (record s {
        abs_loss_rate = insert face (rates.lost rela) (update_rate rates.lost face s.abs_loss_rate);
        rela_loss_rate = insert face rela s.rela_loss_rate;
      })

  -- The stats, and the rest of the rejected names.
  unfoldable pub before_expire_pending_interest :
      List ℕ
      → List OutRecord
      → List (List ℕ)
      → List (List ℕ × FaceStats)
      → List (List ℕ × FaceStats) × List (List ℕ)
  unfolding note_expired change_stats was_rejected
  before_expire_pending_interest name out_records rejected stats =
      let (rest, found) = was_rejected name rejected in
      if found
      then (stats, rest)
      else (change_stats (note_expired out_records) (outcome_prefix name) stats, rejected)
