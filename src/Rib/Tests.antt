-- ===== src/Rib/Tests.antt =====
-- Runs of a RIB entry.
use nfd_qo_s.Base.{◌≡◌, refl, true, false, ◌&&◌, none, some, [], ◌∷◌, arith, ◌==◌}
use nfd_qo_s.Rib.Entry.{
  Route, RibEntry, new_rib_entry, find_route, insert_route, erase_route,
  get_route_with_lowest_cost_by_face_id, get_route_with_lowest_cost_and_child_inherit_by_face_id,
}
use nfd_qo_s.Rib.Entry.Lowest.{Lowest, lowest_cost_lem}
use nfd_qo_s.Rib.Entry.Routes.{IsConsistent, Inserted, insert_route_lem, erase_route_lem}

abbrev by_app : Route
by_app = record {
  face_id = 260;
  origin = 0;
  cost = 10;
  child_inherit = true;
  capture = false;
  expires = none;
  announcement = none;
  event = none;
}

abbrev by_client : Route
by_client = record by_app { origin = 65; cost = 4; capture = true; event = some 3 }

abbrev entry : RibEntry
entry = record (new_rib_entry (8 ∷ 65 ∷ [])) {
  routes = by_app ∷ by_client ∷ [];
  n_routes_with_capture_set = 1;
}

entry-IsConsistent : IsConsistent entry
entry-IsConsistent = record { distinct = ((refl, tt), (tt, tt)); counted = refl }

insert_route_lem_example : Inserted by_app entry (insert_route by_app entry)
insert_route_lem_example = insert_route_lem by_app entry entry-IsConsistent (omega arith)

erase_route_lem_example :
    IsConsistent (erase_route by_client entry).0
    × (find_route by_client (erase_route by_client entry).0.routes ≡ none)
    × (find_route by_app (erase_route by_client entry).0.routes ≡ find_route by_app entry.routes)
erase_route_lem_example =
    erase_route_lem by_client by_app entry entry-IsConsistent (omega arith) refl

lowest_cost_lem_example :
    Lowest (λ r. r.face_id == 260) entry.routes (get_route_with_lowest_cost_by_face_id 260 entry)
    × Lowest
        (λ r. r.face_id == 260 && r.child_inherit)
        entry.routes
        (get_route_with_lowest_cost_and_child_inherit_by_face_id 260 entry)
lowest_cost_lem_example = lowest_cost_lem 260 entry
