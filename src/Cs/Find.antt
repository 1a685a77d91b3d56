-- ===== src/Cs/Find.antt =====
-- `Cs::find` of daemon/table/cs.cpp with its searches. A range of iterators is the list of its
-- entries. The loop of `findRightmost` runs on the length of the table, since each round leaves out
-- an entry at least; `none` is lack of fuel, an iterator out of the table, or a failed assertion of
-- the policy.
pub mod Within
pub mod Loop
pub mod Bounds
pub mod Answers
use nfd_qo_s.Base.{
  ℕ, zero, suc, ◌+◌, ◌-◌, not, ◌||◌, Option, none, some, List, [], ◌∷◌, ◌++◌, ltb, ◌==◌,
  if◌then◌else◌, ◌>>=◌, length, take, drop,
}
use nfd_qo_s.Cs.Store.{Cs, Names, query_of, from_bound, range_of}
use nfd_qo_s.Cs.Entry.{Data, CsInterest, Entry, can_satisfy}
use nfd_qo_s.Cs.Policy.{Policy}

-- `findLeftmost`
pub find_leftmost : ℕ → CsInterest → List Entry → Option Entry
find_leftmost now interest [] = none
find_leftmost now interest (x ∷ xs) =
    if can_satisfy now interest x then some x else find_leftmost now interest xs

-- `find_last_if` of core/algorithm.hpp, as `findRightmostAmongExact` calls it
pub find_last : ℕ → CsInterest → List Entry → Option Entry
find_last now interest [] = none
find_last now interest (x ∷ xs) = elim (find_last now interest xs) [
  | some e ↦ some e
  | none ↦ if can_satisfy now interest x then some x else none
]

-- `std::prev(right)`
abbrev pub last_of : List Entry → Option Entry
last_of [] = none
last_of (x ∷ []) = some x
last_of (x ∷ y ∷ ys) = last_of (y ∷ ys)

-- `[left, right)`: the entries before `right` from the first one not before the name of `prev`, cut one
-- component after the Interest's.
unfoldable pub under : Names → CsInterest → Entry → List Entry → List Entry
unfolding from_bound query_of
under names interest prev before_right =
    from_bound (query_of names (take (length interest.name + 1) prev.packet.name)) before_right

-- A round of the loop ends the search, leaves the entries before `left`, or steps out of the table.
pub data Round : Type 0 where
  done : Option Entry → Round
  next : List Entry → Round
  fault : Round

abbrev pub round_under : ℕ → CsInterest → List Entry → List Entry → Round
round_under now interest before_right right = elim (find_leftmost now interest right) [
  | some e ↦ done (some e)
  | none ↦ next (take (length before_right - length right) before_right)
]

-- `first` is the place of the range's first entry, and the list has the entries before `right`.
unfoldable pub round : Names → ℕ → CsInterest → ℕ → List Entry → Round
unfolding find_last find_leftmost
round names now interest first before_right =
    if length before_right == first then done none else elim (last_of before_right) [
      | none ↦ fault
      | some prev ↦
          if length prev.packet.name == length interest.name
          then (if ltb (length before_right) first
              then fault
              else done (find_last now interest (drop first before_right)))
          else round_under now interest before_right (under names interest prev before_right)
    ]

pub find_rightmost : ℕ → Names → ℕ → CsInterest → ℕ → List Entry → Option (Option Entry)
unfolding round
find_rightmost zero names now interest first before_right =
    elim (round names now interest first before_right) [
      | done r ↦ some r
      | next rest ↦ none
      | fault ↦ none
    ]
find_rightmost (suc fuel) names now interest first before_right =
    elim (round names now interest first before_right) [
      | done r ↦ some r
      | next rest ↦ find_rightmost fuel names now interest first rest
      | fault ↦ none
    ]

-- The place of `first`, and the entries before `last`.
abbrev pub first_place : Names → List ℕ → List Entry → ℕ
first_place names prefix table = length table - length (from_bound (query_of names prefix) table)

abbrev pub before_last : Names → List ℕ → List Entry → List Entry
before_last names prefix table =
    take (first_place names prefix table) table ++ range_of names prefix table

abbrev pub search_table : Names → ℕ → CsInterest → List Entry → Option (Option Entry)
search_table names now interest table =
    if interest.is_rightmost
    then find_rightmost (length table) names now interest (first_place names interest.name table)
        (before_last names interest.name table)
    else some (find_leftmost now interest (range_of names interest.name table))

module _ (p : Policy) where
  abbrev pub answer : Option Entry → Cs p → Option (Option Data × Cs p)
  answer none cs = some (none, cs)
  answer (some e) cs = do
    policy ← p.use_entry e.handle cs.policy
    some (some e.packet, record cs { policy = policy })

  -- The hit's Data, or `none` inside for a miss.
  unfoldable pub find_data : Names → ℕ → CsInterest → Cs p → Option (Option Data × Cs p)
  unfolding find_rightmost
  find_data names now interest cs =
      if not cs.should_serve || cs.limit == 0
      then some (none, cs)
      else (do found ← search_table names now interest cs.table; answer found cs)
