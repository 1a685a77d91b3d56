-- ===== src/Rib/Entry/Lowest.antt =====
-- The searches for the route with the lowest cost.
use mathlib.Core.Path.{subst}
use mathlib.Core.List.{append-nil, append_assoc}
use nfd_qo_s.Base.{
  ℕ, ◌≤◌, ◌<◌, ◌≡◌, refl, sym, ◌⊎◌, inl, inr, Bool, true, false, ◌&&◌, Option, none, some, List, [],
  ◌∷◌, ◌++◌, arith, ltb, ◌==◌, Bool-cases, All, Any, All-weaken,
}
use nfd_qo_s.Rib.Entry.{
  Route, RibEntry, better, lowest_from, get_route_with_lowest_cost_by_face_id,
  get_route_with_lowest_cost_and_child_inherit_by_face_id,
}

-- What a search for the lowest cost finds among the routes that are wanted.
abbrev pub Lowest : (Route → Bool) → List Route → Option Route → Type 0
Lowest wanted rs none = All (λ s. wanted s ≡ false) rs
Lowest wanted rs (some r) =
    Any (λ s. (s ≡ r) × (wanted s ≡ true)) rs × All (λ s. (wanted s ≡ false) ⊎ (r.cost ≤ s.cost)) rs

All-snoc :
    (P : Route → Type 0) (rs : List Route) (r : Route) → All P rs → P r → All P (rs ++ r ∷ [])
All-snoc P [] r h p = (p, tt)
All-snoc P (s ∷ rs) r (h, hs) p = (h, All-snoc P rs r hs p)

Any-front : (P : Route → Type 0) (rs ss : List Route) → Any P rs → Any P (rs ++ ss)
Any-front P [] ss h = absurd h
Any-front P (r ∷ rs) ss (inl h) = inl h
Any-front P (r ∷ rs) ss (inr h) = inr (Any-front P rs ss h)

Any-last : (P : Route → Type 0) (rs : List Route) (r : Route) → P r → Any P (rs ++ r ∷ [])
Any-last P [] r p = inl p
Any-last P (s ∷ rs) r p = inr (Any-last P rs r p)

Lowest-better :
    (wanted : Route → Bool) (seen : List Route) (candidate : Option Route) (r : Route)
    → Lowest wanted seen candidate
    → Lowest wanted (seen ++ r ∷ []) (better wanted candidate r)
Lowest-better wanted seen none r h = elim (Bool-cases (wanted r)) [
  | inr unwanted ↦ rw unwanted (All-snoc (λ s. wanted s ≡ false) seen r h unwanted)
  | inl is_wanted ↦ rw is_wanted (
    Any-last (λ s. (s ≡ r) × (wanted s ≡ true)) seen r (refl, is_wanted),
    All-snoc (λ s. (wanted s ≡ false) ⊎ (r.cost ≤ s.cost)) seen r
        (All-weaken (λ s. wanted s ≡ false) (λ s. (wanted s ≡ false) ⊎ (r.cost ≤ s.cost)) seen
          (λ s g. inl g) h)
        (inr (omega arith)),
  )
]
Lowest-better wanted seen (some c) r (found, least) = elim (Bool-cases (wanted r)) [
  | inr unwanted ↦ rw unwanted (
    Any-front (λ s. (s ≡ c) × (wanted s ≡ true)) seen (r ∷ []) found,
    All-snoc (λ s. (wanted s ≡ false) ⊎ (c.cost ≤ s.cost)) seen r least (inl unwanted),
  )
  | inl is_wanted ↦ elim (Bool-cases (ltb r.cost c.cost)) [
    | inl cheaper ↦
        let less : r.cost < c.cost = ground (arith, cheaper) in
        rw (is_wanted, cheaper)
          (
            Any-last (λ s. (s ≡ r) × (wanted s ≡ true)) seen r (refl, is_wanted),
            All-snoc (λ s. (wanted s ≡ false) ⊎ (r.cost ≤ s.cost)) seen r
                (All-weaken (λ s. (wanted s ≡ false) ⊎ (c.cost ≤ s.cost))
                  (λ s. (wanted s ≡ false) ⊎ (r.cost ≤ s.cost)) seen
                  (λ s g. elim g [
                    | inl no_match ↦ inl no_match
                    | inr more ↦ inr (omega (arith, less, more))
                  ])
                  least)
                (inr (omega arith)),
          )
    | inr dearer ↦
        rw (is_wanted, dearer)
          (
            Any-front (λ s. (s ≡ c) × (wanted s ≡ true)) seen (r ∷ []) found,
            All-snoc (λ s. (wanted s ≡ false) ⊎ (c.cost ≤ s.cost)) seen r least
                (inr (ground (arith, dearer))),
          )
  ]
]

lowest_from-Lowest :
    (wanted : Route → Bool) (seen rs : List Route) (candidate : Option Route)
    → Lowest wanted seen candidate
    → Lowest wanted (seen ++ rs) (lowest_from wanted candidate rs)
unfolding lowest_from
lowest_from-Lowest wanted seen [] candidate h =
    subst (λ l. Lowest wanted l candidate) (sym (append-nil seen)) h
lowest_from-Lowest wanted seen (r ∷ rs) candidate h =
    subst (λ l. Lowest wanted l (lowest_from wanted (better wanted candidate r) rs))
      (append_assoc seen (r ∷ []) rs)
      (lowest_from-Lowest wanted (seen ++ r ∷ []) rs (better wanted candidate r)
        (Lowest-better wanted seen candidate r h))

-- `getRouteWithLowestCostByFaceId` and `getRouteWithLowestCostAndChildInheritByFaceId` return a
-- route of the face, with the child-inherit flag for the second, that costs no more than any other
-- such route, or none if the entry has no such route.
pub lowest_cost_lem :
    (face_id : ℕ) (e : RibEntry)
    → Lowest (λ r. r.face_id == face_id) e.routes (get_route_with_lowest_cost_by_face_id face_id e)
      × Lowest
          (λ r. r.face_id == face_id && r.child_inherit)
          e.routes
          (get_route_with_lowest_cost_and_child_inherit_by_face_id face_id e)
lowest_cost_lem face_id e = (
  lowest_from-Lowest (λ r. r.face_id == face_id) [] e.routes none tt,
  lowest_from-Lowest (λ r. r.face_id == face_id && r.child_inherit) [] e.routes none tt,
)
