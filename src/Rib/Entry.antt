-- ===== src/Rib/Entry.antt =====
-- `RibEntry` of rib/rib-entry.cpp and `Route` of rib/route.hpp. The flags of a route are the bits
-- that the code tests. An announcement, a type of ndn-cxx, is a number; times are in nanoseconds
-- since `TimePoint::min()`. The links between entries are left to the tree of the RIB.
pub mod Routes
pub mod Lowest
use nfd_qo_s.Base.{
  ℕ, ◌+◌, ◌-◌, ◌/◌, ◌%◌, ◌^◌, min, max, ◌⊎◌, inl, inr, Bool, true, false, ◌&&◌, Option, none, some,
  List, [], ◌∷◌, ◌++◌, ltb, ◌==◌, if◌then◌else◌, length, get_elem?, null,
}

pub record Route : Type 0 where
  pub face_id : ℕ
  pub origin : ℕ
  pub cost : ℕ
  pub child_inherit : Bool
  pub capture : Bool
  pub expires : Option ℕ
  pub announcement : Option ℕ
  -- the scheduled event of the expiration
  pub event : Option ℕ

pub record RibEntry : Type 0 where
  pub name : List ℕ
  pub routes : List Route
  pub inherited_routes : List Route
  pub n_routes_with_capture_set : ℕ

abbrev pub new_rib_entry : List ℕ → RibEntry
new_rib_entry name = record {
  name = name;
  routes = [];
  inherited_routes = [];
  n_routes_with_capture_set = 0;
}

-- `compareFaceIdAndOrigin`
abbrev pub compare_face_id_and_origin : Route → Route → Bool
compare_face_id_and_origin r s = r.face_id == s.face_id && r.origin == s.origin

unfoldable pub find_route : Route → List Route → Option Route
find_route route [] = none
find_route route (r ∷ rs) =
    if compare_face_id_and_origin r route then some r else find_route route rs

-- The entry, the route that stands in it, and whether that is the new one.
unfoldable pub insert_route : Route → RibEntry → RibEntry × Route × Bool
insert_route route e = elim (find_route route e.routes) [
  | some r ↦ (e, r, false)
  | none ↦ (
    record e {
      routes = e.routes ++ route ∷ [];
      n_routes_with_capture_set =
          if route.capture
          then (e.n_routes_with_capture_set + 1) % 2 ^ 64
          else e.n_routes_with_capture_set;
    },
    route,
    true,
  )
]

unfoldable pub erase_found : Route → List Route → List Route
erase_found route [] = []
erase_found route (r ∷ rs) =
    let rest = erase_found route rs in if compare_face_id_and_origin r route then rs else r ∷ rest

-- The entry, and the event that is cancelled.
unfoldable pub erase_route : Route → RibEntry → RibEntry × Option ℕ
unfolding erase_found
erase_route route e = elim (find_route route e.routes) [
  | none ↦ (e, none)
  | some r ↦ (
    record e {
      routes = erase_found route e.routes;
      n_routes_with_capture_set =
          if r.capture
          then (e.n_routes_with_capture_set + (2 ^ 64 - 1)) % 2 ^ 64
          else e.n_routes_with_capture_set;
    },
    r.event,
  )
]

unfoldable pub has_route : Route → RibEntry → Bool
has_route route e = elim (find_route route e.routes) [ none ↦ false | some r ↦ true ]

-- `std::find_if` with `compareFaceId`
unfoldable pub find_face_id : ℕ → List Route → Option Route
find_face_id face_id [] = none
find_face_id face_id (r ∷ rs) = if r.face_id == face_id then some r else find_face_id face_id rs

unfoldable pub has_face_id : ℕ → RibEntry → Bool
has_face_id face_id e = elim (find_face_id face_id e.routes) [ none ↦ false | some r ↦ true ]

abbrev pub get_n_routes : RibEntry → ℕ
get_n_routes e = length e.routes

abbrev pub add_inherited_route : Route → RibEntry → RibEntry
add_inherited_route route e = record e { inherited_routes = e.inherited_routes ++ route ∷ [] }

-- `std::list::remove_if` with `compareFaceId`
unfoldable pub remove_routes_of_face : ℕ → List Route → List Route
remove_routes_of_face face_id [] = []
remove_routes_of_face face_id (r ∷ rs) =
    let rest = remove_routes_of_face face_id rs in if r.face_id == face_id then rest else r ∷ rest

unfoldable pub remove_inherited_route : Route → RibEntry → RibEntry
unfolding remove_routes_of_face
remove_inherited_route route e = record e {
  inherited_routes = remove_routes_of_face route.face_id e.inherited_routes;
}

abbrev pub find_inherited_route : Route → RibEntry → Option Route
find_inherited_route route e = find_face_id route.face_id e.inherited_routes

unfoldable pub has_inherited_route : Route → RibEntry → Bool
has_inherited_route route e = elim (find_inherited_route route e) [ none ↦ false | some r ↦ true ]

abbrev pub has_capture : RibEntry → Bool
has_capture e = ltb 0 e.n_routes_with_capture_set

unfoldable pub has_child_inherit : ℕ → List Route → Bool
has_child_inherit face_id [] = false
has_child_inherit face_id (r ∷ rs) =
    let rest = has_child_inherit face_id rs in
    if r.face_id == face_id && r.child_inherit then true else rest

abbrev pub has_child_inherit_on_face_id : ℕ → RibEntry → Bool
has_child_inherit_on_face_id face_id e = has_child_inherit face_id e.routes

-- One route of the loops for the lowest cost, and the loops from a candidate on. `wanted` is the
-- test of the face, and of the flag where the loop has it.
abbrev pub better : (Route → Bool) → Option Route → Route → Option Route
better wanted candidate r =
    if wanted r
    then elim candidate [ none ↦ some r | some c ↦ if ltb r.cost c.cost then some r else some c ]
    else candidate

unfoldable pub lowest_from : (Route → Bool) → Option Route → List Route → Option Route
lowest_from wanted candidate [] = candidate
lowest_from wanted candidate (r ∷ rs) = lowest_from wanted (better wanted candidate r) rs

abbrev pub get_route_with_lowest_cost_by_face_id : ℕ → RibEntry → Option Route
get_route_with_lowest_cost_by_face_id face_id e =
    lowest_from (λ r. r.face_id == face_id) none e.routes

abbrev pub get_route_with_lowest_cost_and_child_inherit_by_face_id : ℕ → RibEntry → Option Route
get_route_with_lowest_cost_and_child_inherit_by_face_id face_id e =
    lowest_from (λ r. r.face_id == face_id && r.child_inherit) none e.routes

unfoldable pub routes_of : ℕ → List Route → List Route
routes_of face_id [] = []
routes_of face_id (r ∷ rs) =
    let rest = routes_of face_id rs in if r.face_id == face_id then r ∷ rest else rest

-- `std::nth_element` is a parameter.
unfoldable pub get_route_with_second_lowest_cost_by_face_id :
    (List Route → List Route) → ℕ → RibEntry → Option Route
get_route_with_second_lowest_cost_by_face_id nth_element face_id e =
    let matches = routes_of face_id e.routes in
    if ltb (length matches) 2 then none else get_elem? (nth_element matches) 1

-- `entryExpiry` and `bestAnnRoute` with its expiration; `latest` is `TimePoint::max()`.
pub record Announced : Type 0 where
  pub entry_expiry : ℕ
  pub best : Option (ℕ × ℕ)

abbrev pub better_announced : ℕ → Option (ℕ × ℕ) → Option ℕ → Option (ℕ × ℕ)
better_announced expiry best none = best
better_announced expiry none (some a) = some (a, expiry)
better_announced expiry (some (b, until)) (some a) =
    if ltb until expiry then some (a, expiry) else some (b, until)

unfoldable pub announce : ℕ → List Route → Announced → Announced
announce latest [] c = c
announce latest (r ∷ rs) c = announce latest rs (elim r.expires [
  | none ↦ record c { entry_expiry = latest }
  | some expiry ↦ record {
    entry_expiry = max c.entry_expiry expiry;
    best = better_announced expiry c.best r.announcement;
  }
])

-- The announcement of a route, or the expiration, in milliseconds, of the one that is made for the entry.
-- `none` is the overflow of `TimePoint::min() - now` for an entry without routes.
unfoldable pub get_prefix_announcement : ℕ → ℕ → ℕ → ℕ → RibEntry → Option (ℕ ⊎ ℕ)
unfolding announce
get_prefix_announcement latest now min_expiration max_expiration e =
    let c = announce latest e.routes (record { entry_expiry = 0; best = none }) in
    elim c.best [
      | some (a, until) ↦ some (inl a)
      | none ↦
          if null e.routes
          then none
          else some
              (inr (max min_expiration (min max_expiration ((c.entry_expiry - now) / 10 ^ 6))))
    ]
