-- ===== src/Cs/Entry.antt =====
-- `cs::Entry` and `cs::EntryImpl` of daemon/table/cs-entry.cpp and cs-entry-impl.cpp. A name of
-- ndn-cxx is the list of its components, numbered in their canonical order; times are counted in
-- the unit of the freshness period. A Data has its name, the component of its implicit digest, its
-- freshness period, and whether its CachePolicy tag says NoCache. What the Interest selects
-- (`Interest::matchesData`) is a function.
use nfd_qo_s.Base.{ℕ, ◌+◌, Bool, true, false, not, ◌&&◌, List, [], ◌∷◌, ltb, if◌then◌else◌}
use Prim.Native.Nat.{compare, Ordering}
use Prim.Native.Nat.Ordering.{lt, eq, gt}

pub record Data : Type 0 where
  pub name : List ℕ
  pub digest : ℕ
  pub freshness_period : ℕ
  pub no_cache : Bool

pub record CsInterest : Type 0 where
  pub name : List ℕ
  pub is_rightmost : Bool
  pub must_be_fresh : Bool
  pub matches_data : Data → Bool

-- An iterator to an entry is the number that the entry was given when it was made.
pub record Entry : Type 0 where
  pub handle : ℕ
  pub packet : Data
  pub is_unsolicited : Bool
  pub stale_time : ℕ

abbrev pub is_stale : ℕ → Entry → Bool
is_stale now e = ltb e.stale_time now

abbrev pub update_stale_time : ℕ → Entry → Entry
update_stale_time now e = record e { stale_time = now + e.packet.freshness_period }

abbrev pub set_data : ℕ → Data → Bool → Entry → Entry
set_data now packet unsolicited e =
    update_stale_time now (record e { packet = packet; is_unsolicited = unsolicited })

abbrev pub unset_unsolicited : ℕ → Entry → Entry
unset_unsolicited now e = set_data now e.packet false e

unfoldable pub can_satisfy : ℕ → CsInterest → Entry → Bool
can_satisfy now interest e =
    if not (interest.matches_data e.packet)
    then false
    else if interest.must_be_fresh && is_stale now e
    then false
    else true

-- `Name::compare`
unfoldable pub compare_names : List ℕ → List ℕ → Ordering
compare_names [] [] = eq
compare_names [] (d ∷ ds) = lt
compare_names (c ∷ cs) [] = gt
compare_names (c ∷ cs) (d ∷ ds) =
    let rest = compare_names cs ds in elim (compare c d) [ lt ↦ lt | eq ↦ rest | gt ↦ gt ]

-- `compareDataWithData`
unfoldable pub compare_data_with_data : Data → Data → Ordering
compare_data_with_data lhs rhs = elim (compare_names lhs.name rhs.name) [
  | lt ↦ lt
  | gt ↦ gt
  | eq ↦ compare lhs.digest rhs.digest
]

-- A query for a full name has the digest as its last component.
pub data Query : Type 0 where
  prefix_query : List ℕ → Query
  full_query : List ℕ → ℕ → Query

-- `compareQueryWithData`
unfoldable pub compare_query_with_data : Query → Data → Ordering
compare_query_with_data (prefix_query name) d = elim (compare_names name d.name) [
  | lt ↦ lt
  | gt ↦ gt
  | eq ↦ lt
]
compare_query_with_data (full_query name digest) d = elim (compare_names name d.name) [
  | lt ↦ lt
  | gt ↦ gt
  | eq ↦ compare digest d.digest
]
