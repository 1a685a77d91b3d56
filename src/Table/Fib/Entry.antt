-- ===== src/Table/Fib/Entry.antt =====
-- The next hops of a FIB entry are in order of cost, one for each face and endpoint.
use nfd_qo_s.Base.{
  ℕ, ◌≤◌, ◌≡◌, refl, ◌∙◌, inl, inr, Bool, true, false, not, ◌&&◌, List, [], ◌∷◌, arith, ◌==◌,
  Bool-cases, All,
}
use nfd_qo_s.Table.Fib.{
  NextHop, FibEntry, is_hop, count, IsSorted, Sort, set_cost, add_or_update_next_hop, erase_hop,
  remove_next_hop, remove_face, remove_next_hop_by_face,
}

pub record IsValidFib (e : FibEntry) : Type 0 where
  pub in_order : IsSorted e.next_hops
  pub distinct : (face endpoint : ℕ) → count (is_hop face endpoint) e.next_hops ≤ 1

-- A property that no next hop of the face and endpoint has.
abbrev pub IsApart : ℕ → ℕ → (NextHop → Bool) → Type 0
IsApart face endpoint test = (h : NextHop) → is_hop face endpoint h ≡ true → test h ≡ false

count-and-le : (p q : NextHop → Bool) (hs : List NextHop) → count (λ h. p h && q h) hs ≤ count p hs
unfolding count
count-and-le p q [] = omega arith
count-and-le p q (h ∷ hs) = ground (arith, count-and-le p q hs)

count-set_cost_other :
    (face endpoint cost : ℕ) (test : NextHop → Bool) (hs : List NextHop)
    → IsApart face endpoint test
    → count test (set_cost face endpoint cost hs) ≡ count test hs
unfolding count set_cost
count-set_cost_other face endpoint cost test [] apart =
    let no = apart (record { face = face; endpoint_id = endpoint; cost = cost }) (ground arith) in
    rw no refl
count-set_cost_other face endpoint cost test (h ∷ hs) apart =
    elim (Bool-cases (is_hop face endpoint h)) [
      | inl here ↦ rw (here, apart h here, apart (record h { cost = cost }) here) refl
      | inr other ↦ rw other (ground (arith, count-set_cost_other face endpoint cost test hs apart))
    ]

count-set_cost :
    (face endpoint cost : ℕ) (hs : List NextHop)
    → count (is_hop face endpoint) hs ≤ 1
    → (count (is_hop face endpoint) (set_cost face endpoint cost hs) ≡ 1)
      × (count (λ h. is_hop face endpoint h && h.cost == cost) (set_cost face endpoint cost hs) ≡ 1)
unfolding count set_cost
count-set_cost face endpoint cost [] h = ground arith
count-set_cost face endpoint cost (k ∷ hs) h = elim (Bool-cases (is_hop face endpoint k)) [
  | inl here ↦
      let same : is_hop face endpoint (record k { cost = cost }) ≡ true = here in
      let bound = count-and-le (is_hop face endpoint) (λ h. h.cost == cost) hs in
      rw (here, same) (ground arith)
  | inr other ↦
      rw (other, other) (ground (arith, count-set_cost face endpoint cost hs (ground arith)))
]

count-set_cost_le :
    (face endpoint cost : ℕ) (hs : List NextHop) (f p : ℕ)
    → count (is_hop face endpoint) (set_cost face endpoint cost hs) ≡ 1
    → count (is_hop f p) hs ≤ 1
    → count (is_hop f p) (set_cost face endpoint cost hs) ≤ 1
count-set_cost_le face endpoint cost hs f p one few =
    elim (Bool-cases (f == face && p == endpoint)) [
      | inl same ↦
          let ef : f ≡ face = ground arith in
          let ep : p ≡ endpoint = ground arith in rw (ef, ep) (omega arith)
      | inr other ↦
          let kept =
            count-set_cost_other face endpoint cost (is_hop f p) hs (λ h here. ground arith) in
          omega arith
    ]

-- `addOrUpdateNextHop` leaves one next hop of the face and endpoint, with the cost; it keeps the
-- number of next hops with a property that none of this face and endpoint has, and the next hops
-- are in order of cost.
pub add_or_update_next_hop_lem :
    (s : Sort) (face endpoint cost : ℕ) (e : FibEntry) (test : NextHop → Bool)
    → IsValidFib e
    → IsApart face endpoint test
    → let e' = add_or_update_next_hop s face endpoint cost e in
      IsValidFib e'
      × (e'.prefix ≡ e.prefix)
      × (count (λ h. is_hop face endpoint h && h.cost == cost) e'.next_hops ≡ 1)
      × (count test e'.next_hops ≡ count test e.next_hops)
unfolding add_or_update_next_hop
add_or_update_next_hop_lem s face endpoint cost e test valid apart =
    let hs = set_cost face endpoint cost e.next_hops in
    let (one, priced) =
      count-set_cost face endpoint cost e.next_hops (valid.distinct face endpoint) in
    (
      record {
        in_order = s.sort-IsSorted hs;
        distinct = λ f p.
            rw (s.count-sort (is_hop f p) hs)
              (count-set_cost_le face endpoint cost e.next_hops f p one (valid.distinct f p));
      },
      refl,
      s.count-sort _ hs ∙ priced,
      s.count-sort test hs ∙ count-set_cost_other face endpoint cost test e.next_hops apart,
    )

All-erase_hop :
    (face endpoint c : ℕ) (hs : List NextHop)
    → All (λ k. c ≤ k.cost) hs
    → All (λ k. c ≤ k.cost) (erase_hop face endpoint hs)
unfolding erase_hop
All-erase_hop face endpoint c [] h = tt
All-erase_hop face endpoint c (k ∷ hs) h = elim (Bool-cases (is_hop face endpoint k)) [
  | inl here ↦ rw here h.1
  | inr other ↦ rw other (h.0, All-erase_hop face endpoint c hs h.1)
]

IsSorted-erase_hop :
    (face endpoint : ℕ) (hs : List NextHop) → IsSorted hs → IsSorted (erase_hop face endpoint hs)
unfolding erase_hop
IsSorted-erase_hop face endpoint [] h = tt
IsSorted-erase_hop face endpoint (k ∷ hs) h = elim (Bool-cases (is_hop face endpoint k)) [
  | inl here ↦ rw here h.1
  | inr other ↦
      rw other (All-erase_hop face endpoint k.cost hs h.0, IsSorted-erase_hop face endpoint hs h.1)
]

count-erase_hop :
    (face endpoint : ℕ) (test : NextHop → Bool) (hs : List NextHop)
    → IsApart face endpoint test
    → count test (erase_hop face endpoint hs) ≡ count test hs
unfolding count erase_hop
count-erase_hop face endpoint test [] apart = refl
count-erase_hop face endpoint test (h ∷ hs) apart = elim (Bool-cases (is_hop face endpoint h)) [
  | inl here ↦ rw (here, apart h here) (omega arith)
  | inr other ↦ rw other (ground (arith, count-erase_hop face endpoint test hs apart))
]

count-erase_hop_le :
    (face endpoint : ℕ) (test : NextHop → Bool) (hs : List NextHop)
    → count test (erase_hop face endpoint hs) ≤ count test hs
unfolding count erase_hop
count-erase_hop_le face endpoint test [] = omega arith
count-erase_hop_le face endpoint test (h ∷ hs) = elim (Bool-cases (is_hop face endpoint h)) [
  | inl here ↦ rw here (omega arith)
  | inr other ↦ rw other (omega (arith, count-erase_hop_le face endpoint test hs))
]

count-erase_hop_same :
    (face endpoint : ℕ) (hs : List NextHop)
    → count (is_hop face endpoint) hs ≤ 1
    → count (is_hop face endpoint) (erase_hop face endpoint hs) ≡ 0
unfolding count erase_hop
count-erase_hop_same face endpoint [] h = refl
count-erase_hop_same face endpoint (k ∷ hs) h = elim (Bool-cases (is_hop face endpoint k)) [
  | inl here ↦ rw here (ground arith)
  | inr other ↦
      rw (other, other) (omega (arith, count-erase_hop_same face endpoint hs (ground arith)))
]

-- `removeNextHop` removes the next hop of the face and endpoint, keeps the number of next hops
-- with a property that none of this face and endpoint has, and keeps the order.
pub remove_next_hop_lem :
    (face endpoint : ℕ) (e : FibEntry) (test : NextHop → Bool)
    → IsValidFib e
    → IsApart face endpoint test
    → let e' = remove_next_hop face endpoint e in
      IsValidFib e'
      × (count (is_hop face endpoint) e'.next_hops ≡ 0)
      × (count test e'.next_hops ≡ count test e.next_hops)
unfolding remove_next_hop
remove_next_hop_lem face endpoint e test valid apart = (
  record {
    in_order = IsSorted-erase_hop face endpoint e.next_hops valid.in_order;
    distinct = λ f p.
        let fewer = count-erase_hop_le face endpoint (is_hop f p) e.next_hops in
        let one = valid.distinct f p in omega arith;
  },
  count-erase_hop_same face endpoint e.next_hops (valid.distinct face endpoint),
  count-erase_hop face endpoint test e.next_hops apart,
)

All-remove_face :
    (face c : ℕ) (hs : List NextHop)
    → All (λ k. c ≤ k.cost) hs
    → All (λ k. c ≤ k.cost) (remove_face face hs)
unfolding remove_face
All-remove_face face c [] h = tt
All-remove_face face c (k ∷ hs) h = elim (Bool-cases (k.face == face)) [
  | inl here ↦ rw here (All-remove_face face c hs h.1)
  | inr other ↦ rw other (h.0, All-remove_face face c hs h.1)
]

IsSorted-remove_face : (face : ℕ) (hs : List NextHop) → IsSorted hs → IsSorted (remove_face face hs)
unfolding remove_face
IsSorted-remove_face face [] h = tt
IsSorted-remove_face face (k ∷ hs) h = elim (Bool-cases (k.face == face)) [
  | inl here ↦ rw here (IsSorted-remove_face face hs h.1)
  | inr other ↦ rw other (All-remove_face face k.cost hs h.0, IsSorted-remove_face face hs h.1)
]

-- The next hops with a property are counted after the removal as if they had another face as well.
count-remove_face :
    (face : ℕ) (test : NextHop → Bool) (hs : List NextHop)
    → count test (remove_face face hs) ≡ count (λ h. not (h.face == face) && test h) hs
unfolding count remove_face
count-remove_face face test [] = refl
count-remove_face face test (h ∷ hs) = elim (Bool-cases (h.face == face)) [
  | inl here ↦ rw here (omega (arith, count-remove_face face test hs))
  | inr other ↦ rw other (omega (arith, count-remove_face face test hs))
]

count-le : (p q : NextHop → Bool) (hs : List NextHop) → count (λ h. p h && q h) hs ≤ count q hs
unfolding count
count-le p q [] = omega arith
count-le p q (h ∷ hs) = ground (arith, count-le p q hs)

-- `removeNextHopByFace` removes the next hops of the face, whatever their endpoint: as many next
-- hops have a property afterwards as had it before with another face. It keeps the order.
pub remove_next_hop_by_face_lem :
    (face : ℕ) (e : FibEntry) (test : NextHop → Bool)
    → IsValidFib e
    → let e' = remove_next_hop_by_face face e in
      IsValidFib e'
      × (count test e'.next_hops ≡ count (λ h. not (h.face == face) && test h) e.next_hops)
unfolding remove_next_hop_by_face
remove_next_hop_by_face_lem face e test valid = (
  record {
    in_order = IsSorted-remove_face face e.next_hops valid.in_order;
    distinct = λ f p.
        let same = count-remove_face face (is_hop f p) e.next_hops in
        let fewer = count-le (λ h. not (h.face == face)) (is_hop f p) e.next_hops in
        let one = valid.distinct f p in omega arith;
  },
  count-remove_face face test e.next_hops,
)
