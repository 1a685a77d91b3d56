-- ===== src/Table/Fib.antt =====
-- `fib::Entry` of daemon/table/fib-entry.cpp with `fib::NextHop` (fib-nexthop.cpp). `std::sort`, which
-- leaves the order of equal costs open, is a parameter with its documented laws.
pub mod Entry
use nfd_qo_s.Base.{
  ℕ, ◌+◌, ◌≤◌, ◌≡◌, Bool, true, false, ◌&&◌, Option, none, some, List, [], ◌∷◌, ◌==◌, if◌then◌else◌,
  All,
}

pub record NextHop : Type 0 where
  pub face : ℕ
  pub endpoint_id : ℕ
  pub cost : ℕ

-- The prefix of an entry, a name of ndn-cxx, is given by its octets.
pub record FibEntry : Type 0 where
  pub prefix : List ℕ
  pub next_hops : List NextHop

abbrev pub is_hop : ℕ → ℕ → NextHop → Bool
is_hop face endpoint h = h.face == face && h.endpoint_id == endpoint

-- The number of next hops with a property.
unfoldable pub count : (NextHop → Bool) → List NextHop → ℕ
count test [] = 0
count test (h ∷ hs) = (if test h then 1 else 0) + count test hs

-- The costs do not fall.
abbrev pub IsSorted : List NextHop → Type 0
IsSorted [] = Unit
IsSorted (h ∷ hs) = All (λ k. h.cost ≤ k.cost) hs × IsSorted hs

-- `std::sort` by cost: the result is in order and has the same elements.
pub record Sort : Type 0 where
  pub sort : List NextHop → List NextHop
  pub sort-IsSorted : (hs : List NextHop) → IsSorted (sort hs)
  pub count-sort :
      (test : NextHop → Bool) (hs : List NextHop) → count test (sort hs) ≡ count test hs

abbrev pub new_fib_entry : List ℕ → FibEntry
new_fib_entry prefix = record { prefix = prefix; next_hops = [] }

pub find_next_hop : ℕ → ℕ → List NextHop → Option NextHop
find_next_hop face endpoint [] = none
find_next_hop face endpoint (h ∷ hs) =
    if is_hop face endpoint h then some h else find_next_hop face endpoint hs

unfoldable pub has_next_hop : ℕ → ℕ → FibEntry → Bool
unfolding find_next_hop
has_next_hop face endpoint e = elim (find_next_hop face endpoint e.next_hops) [
  | none ↦ false
  | some h ↦ true
]

-- The cost of the next hop that is found, or else of a new one at the end.
pub set_cost : ℕ → ℕ → ℕ → List NextHop → List NextHop
set_cost face endpoint cost [] = record { face = face; endpoint_id = endpoint; cost = cost } ∷ []
set_cost face endpoint cost (h ∷ hs) =
    let rest = set_cost face endpoint cost hs in
    if is_hop face endpoint h then record h { cost = cost } ∷ hs else h ∷ rest

unfoldable pub add_or_update_next_hop : Sort → ℕ → ℕ → ℕ → FibEntry → FibEntry
unfolding set_cost
add_or_update_next_hop s face endpoint cost e = record e {
  next_hops = s.sort (set_cost face endpoint cost e.next_hops);
}

pub erase_hop : ℕ → ℕ → List NextHop → List NextHop
erase_hop face endpoint [] = []
erase_hop face endpoint (h ∷ hs) =
    let rest = erase_hop face endpoint hs in if is_hop face endpoint h then hs else h ∷ rest

unfoldable pub remove_next_hop : ℕ → ℕ → FibEntry → FibEntry
unfolding erase_hop
remove_next_hop face endpoint e = record e { next_hops = erase_hop face endpoint e.next_hops }

-- `std::remove_if` with `erase`
pub remove_face : ℕ → List NextHop → List NextHop
remove_face face [] = []
remove_face face (h ∷ hs) =
    let rest = remove_face face hs in if h.face == face then rest else h ∷ rest

unfoldable pub remove_next_hop_by_face : ℕ → FibEntry → FibEntry
unfolding remove_face
remove_next_hop_by_face face e = record e { next_hops = remove_face face e.next_hops }
