-- ===== src/Rib/Entry/Routes.antt =====
-- The routes of an entry: one for each face and origin, and the count of those that capture.
use nfd_qo_s.Base.{
  ℕ, ◌+◌, ◌-◌, ◌%◌, ◌^◌, ◌≤◌, ◌<◌, ◌≡◌, refl, ◌↔◌, ◌⊎◌, inl, inr, Bool, true, false, Option, none,
  some, List, [], ◌∷◌, ◌++◌, arith, if◌then◌else◌, Bool-cases, length, All, Any, All-weaken,
}
use nfd_qo_s.Rib.Entry.{
  Route, RibEntry, compare_face_id_and_origin, find_route, insert_route, erase_found, erase_route,
  has_capture,
}

abbrev pub HasOnePerKey : List Route → Type 0
HasOnePerKey [] = Unit
HasOnePerKey (r ∷ rs) = All (λ s. compare_face_id_and_origin s r ≡ false) rs × HasOnePerKey rs

abbrev pub count_capture : List Route → ℕ
count_capture [] = 0
count_capture (r ∷ rs) = (if r.capture then 1 else 0) + count_capture rs

pub record IsConsistent (e : RibEntry) : Type 0 where
  pub distinct : HasOnePerKey e.routes
  pub counted : e.n_routes_with_capture_set ≡ count_capture e.routes

count_capture-length : (rs : List Route) → count_capture rs ≤ length rs
count_capture-length [] = omega arith
count_capture-length (r ∷ rs) = ground (arith, count_capture-length rs)

count_capture-append :
    (rs : List Route) (r : Route)
    → count_capture (rs ++ r ∷ []) ≡ count_capture rs + (if r.capture then 1 else 0)
count_capture-append [] r = omega arith
count_capture-append (s ∷ rs) r = omega (arith, count_capture-append rs r)

find_route-none :
    (route : Route) (rs : List Route)
    → find_route route rs ≡ none
    → All (λ s. compare_face_id_and_origin s route ≡ false) rs
unfolding find_route
find_route-none route [] h = tt
find_route-none route (r ∷ rs) h = elim (Bool-cases (compare_face_id_and_origin r route)) [
  | inl same ↦ absurd (ground (arith, same, h))
  | inr other ↦ (other, find_route-none route rs (ground (arith, other, h)))
]

key_symmetric :
    (r s : Route) → compare_face_id_and_origin r s ≡ false → compare_face_id_and_origin s r ≡ false
key_symmetric r s h = ground (arith, h)

HasOnePerKey-append :
    (rs : List Route) (route : Route)
    → HasOnePerKey rs
    → All (λ s. compare_face_id_and_origin s route ≡ false) rs
    → HasOnePerKey (rs ++ route ∷ [])
HasOnePerKey-append [] route h new = (tt, tt)
HasOnePerKey-append (r ∷ rs) route (first, h) (here, new) =
    (add_last rs first, HasOnePerKey-append rs route h new)
  where
    add_last :
        (ss : List Route)
        → All (λ s. compare_face_id_and_origin s r ≡ false) ss
        → All (λ s. compare_face_id_and_origin s r ≡ false) (ss ++ route ∷ [])
    add_last [] f = (key_symmetric r route here, tt)
    add_last (s ∷ ss) (f, fs) = (f, add_last ss fs)

find_route-append :
    (route : Route) (rs : List Route)
    → find_route route rs ≡ none
    → find_route route (rs ++ route ∷ []) ≡ some route
unfolding find_route
find_route-append route [] h = ground arith
find_route-append route (r ∷ rs) h = ground (arith, h, find_route-append route rs)

-- What `insertRoute` says: a route of the face and origin that is there, or the new one at the end.
abbrev pub Inserted : Route → RibEntry → RibEntry × Route × Bool → Type 0
Inserted route e (e', r, is_new) =
    IsConsistent e'
    × (find_route route e'.routes ≡ some r)
    × (((is_new ≡ false) × (e' ≡ e))
        ⊎ ((is_new ≡ true) × (r ≡ route) × (e'.routes ≡ e.routes ++ route ∷ [])))

-- On an entry that has them, `insertRoute` keeps one route for each face and origin and the count
-- of those that capture. If there is a route of the face and origin it returns that and changes
-- nothing; else the new one goes to the end. The routes are fewer than 2 ^ 64.
pub insert_route_lem :
    (route : Route) (e : RibEntry)
    → IsConsistent e
    → length e.routes + 1 < 2 ^ 64
    → Inserted route e (insert_route route e)
unfolding insert_route
insert_route_lem route e c few = go (find_route route e.routes) refl
  where
    go :
        (found : Option Route)
        → find_route route e.routes ≡ found
        → Inserted route e (elim found as (λ _. RibEntry × Route × Bool) [
          | some r ↦ (e, r, false)
          | none ↦ (
            record e {
              routes = e.routes ++ route ∷ [];
              n_routes_with_capture_set =
                  if route.capture
                  then (e.n_routes_with_capture_set + 1) % 2 ^ 64
                  else e.n_routes_with_capture_set;
            },
            route,
            true,
          )
        ])
    go (some r) at = (c, at, inl (refl, refl))
    go none at = (
      record {
        distinct =
            HasOnePerKey-append e.routes route c.distinct (find_route-none route e.routes at);
        counted = ground (
          arith,
          c.counted,
          few,
          count_capture-length e.routes,
          count_capture-append e.routes route,
        );
      },
      find_route-append route e.routes at,
      inr (refl, refl, refl),
    )

count_capture-erase :
    (route r : Route) (rs : List Route)
    → find_route route rs ≡ some r
    → count_capture rs ≡ (if r.capture then 1 else 0) + count_capture (erase_found route rs)
unfolding find_route erase_found
count_capture-erase route r [] h = cc
count_capture-erase route r (s ∷ rs) h = elim (Bool-cases (compare_face_id_and_origin s route)) [
  | inl same ↦ let e : s ≡ r = ground (arith, same, h) in rw (same, e) refl
  | inr other ↦
      let rest = count_capture-erase route r rs (ground (arith, other, h)) in
      rw other (omega (arith, rest))
]

All-erase_found :
    (P : Route → Type 0) (route : Route) (rs : List Route) → All P rs → All P (erase_found route rs)
unfolding erase_found
All-erase_found P route [] h = tt
All-erase_found P route (r ∷ rs) (h, hs) = elim (Bool-cases (compare_face_id_and_origin r route)) [
  | inl same ↦ rw same hs
  | inr other ↦ rw other (h, All-erase_found P route rs hs)
]

HasOnePerKey-erase :
    (route : Route) (rs : List Route) → HasOnePerKey rs → HasOnePerKey (erase_found route rs)
unfolding erase_found
HasOnePerKey-erase route [] h = tt
HasOnePerKey-erase route (r ∷ rs) (first, h) =
    elim (Bool-cases (compare_face_id_and_origin r route)) [
      | inl same ↦ rw same h
      | inr other ↦ rw other (
        All-erase_found (λ s. compare_face_id_and_origin s r ≡ false) route rs first,
        HasOnePerKey-erase route rs h,
      )
    ]

find_route-absent :
    (route : Route) (rs : List Route)
    → All (λ s. compare_face_id_and_origin s route ≡ false) rs
    → find_route route rs ≡ none
unfolding find_route
find_route-absent route [] h = refl
find_route-absent route (r ∷ rs) (h, hs) = ground (arith, h, find_route-absent route rs hs)

same_key :
    (s r route : Route)
    → compare_face_id_and_origin r route ≡ true
    → compare_face_id_and_origin s r ≡ false
    → compare_face_id_and_origin s route ≡ false
same_key s r route same other = ground (arith, same, other)

find_route-erase_same :
    (route : Route) (rs : List Route)
    → HasOnePerKey rs
    → find_route route (erase_found route rs) ≡ none
unfolding find_route erase_found
find_route-erase_same route [] h = refl
find_route-erase_same route (r ∷ rs) (first, h) =
    elim (Bool-cases (compare_face_id_and_origin r route)) [
      | inl same ↦ rw same (
          find_route-absent route rs (
            All-weaken (λ s. compare_face_id_and_origin s r ≡ false)
              (λ s. compare_face_id_and_origin s route ≡ false) rs
              (λ s other. same_key s r route same other) first))
      | inr other ↦ ground (arith, other, find_route-erase_same route rs h)
    ]

find_route-erase_other :
    (route other : Route) (rs : List Route)
    → compare_face_id_and_origin other route ≡ false
    → find_route other (erase_found route rs) ≡ find_route other rs
unfolding find_route erase_found
find_route-erase_other route other [] h = refl
find_route-erase_other route other (r ∷ rs) h =
    let rest = find_route-erase_other route other rs h in
    elim (Bool-cases (compare_face_id_and_origin r route)) [
      | inl same ↦
          let differs : compare_face_id_and_origin r other ≡ false = ground (arith, same, h) in
          rw (same, differs) refl
      | inr differs ↦ elim (Bool-cases (compare_face_id_and_origin r other)) [
        | inl found ↦ rw (differs, found) refl
        | inr passed ↦ rw (differs, passed) rest
      ]
    ]

abbrev Erased : Route → Route → RibEntry → RibEntry → Type 0
Erased route other e e' =
    IsConsistent e'
    × (find_route route e'.routes ≡ none)
    × (find_route other e'.routes ≡ find_route other e.routes)

-- On an entry with one route for each face and origin and the count of those that capture,
-- `eraseRoute` takes away the route of the face and origin, and no other, and keeps the count of
-- the routes that capture. The routes are fewer than 2 ^ 64.
pub erase_route_lem :
    (route other : Route) (e : RibEntry)
    → IsConsistent e
    → length e.routes < 2 ^ 64
    → compare_face_id_and_origin other route ≡ false
    → let e' = (erase_route route e).0 in
      IsConsistent e'
      × (find_route route e'.routes ≡ none)
      × (find_route other e'.routes ≡ find_route other e.routes)
unfolding erase_route
erase_route_lem route other e c few differs = go (find_route route e.routes) refl
  where
    go :
        (found : Option Route)
        → find_route route e.routes ≡ found
        → Erased route other e
            (elim found as (λ _. RibEntry × Option ℕ) [
              | none ↦ (e, none)
              | some r ↦ (
                record e {
                  routes = erase_found route e.routes;
                  n_routes_with_capture_set =
                      if r.capture
                      then (e.n_routes_with_capture_set + (2 ^ 64 - 1)) % 2 ^ 64
                      else e.n_routes_with_capture_set;
                },
                r.event,
              )
            ]).0
    go none at = (c, at, refl)
    go (some r) at = (
      record {
        distinct = HasOnePerKey-erase route e.routes c.distinct;
        counted = ground (
          arith,
          c.counted,
          few,
          count_capture-length e.routes,
          count_capture-erase route r e.routes at,
        );
      },
      find_route-erase_same route e.routes c.distinct,
      find_route-erase_other route other e.routes differs,
    )

capture-count : (rs : List Route) → (0 < count_capture rs) ↔ Any (λ r. r.capture ≡ true) rs
capture-count [] = (λ h. absurd (omega (arith, h)), λ a. absurd a)
capture-count (r ∷ rs) =
    let rest = capture-count rs in
    (
      λ h. ground (arith, h, rest.0),
      elim [ inl here ↦ ground (arith, here) | inr there ↦ ground (arith, rest.1 there) ],
    )

-- `hasCapture` holds exactly if a route of the entry captures.
pub has_capture_lem :
    (e : RibEntry) → IsConsistent e → (has_capture e ≡ true) ↔ Any (λ r. r.capture ≡ true) e.routes
has_capture_lem e c =
    let count = capture-count e.routes in
    (
      λ h. count.0 (ground (arith, h, c.counted)),
      λ a. let some_capture = count.1 a in ground (arith, some_capture, c.counted),
    )
