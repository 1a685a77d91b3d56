-- ===== src/Cs/Find/Within.antt =====
-- The search for the rightmost match within a range of entries.
use mathlib.Core.Path.{subst}
use Prim.Native.Nat.{Ordering}
use Prim.Native.Nat.Ordering.{lt, eq, gt}
use nfd_qo_s.Base.{
  ℕ, zero, suc, ◌+◌, ◌-◌, ◌≤◌, ◌<◌, ◌≡◌, refl, sym, ap, ◌∙◌, ◌≢◌, ◌⊎◌, inl, inr, Bool, true, false,
  Option, none, some, List, [], ◌∷◌, ◌++◌, arith, ◌==◌, if◌then◌else◌, Bool-cases, length, take,
  All, Any, length-take,
}
use nfd_qo_s.Cs.Find.{find_leftmost, find_last, last_of, Round, done, next, fault, round_under}
use nfd_qo_s.Cs.Store.{Names, query_of, from_bound}
use nfd_qo_s.Cs.Entry.{
  Data, CsInterest, Entry, can_satisfy, compare_names, Query, prefix_query, full_query,
  compare_query_with_data,
}

-- What a search of a range finds: an entry of the range that satisfies the Interest, or none where no
-- entry of the range does.
abbrev pub Found : ℕ → CsInterest → List Entry → Option Entry → Type 0
Found now interest range none = All (λ x. can_satisfy now interest x ≡ false) range
Found now interest range (some e) = Any (λ x. (x ≡ e) × (can_satisfy now interest x ≡ true)) range

pub find_leftmost_lem :
    (now : ℕ) (interest : CsInterest) (range : List Entry)
    → Found now interest range (find_leftmost now interest range)
unfolding find_leftmost
find_leftmost_lem now interest [] = tt
find_leftmost_lem now interest (x ∷ xs) =
    go (can_satisfy now interest x) (find_leftmost now interest xs) refl
      (find_leftmost_lem now interest xs)
  where
    go :
        (b : Bool) (r : Option Entry)
        → can_satisfy now interest x ≡ b
        → Found now interest xs r
        → Found now interest (x ∷ xs) (if b then some x else r)
    go true r e h = inl (refl, e)
    go false none e h = (e, h)
    go false (some y) e h = inr h

find_last_lem :
    (now : ℕ) (interest : CsInterest) (range : List Entry)
    → Found now interest range (find_last now interest range)
unfolding find_last
find_last_lem now interest [] = tt
find_last_lem now interest (x ∷ xs) =
    go (find_last now interest xs) (can_satisfy now interest x) refl (find_last_lem now interest xs)
  where
    go :
        (r : Option Entry) (b : Bool)
        → can_satisfy now interest x ≡ b
        → Found now interest xs r
        → Found now interest
            (x ∷ xs)
            (elim r [ some e ↦ some e | none ↦ if b then some x else none ])
    go (some e) b h f = inr f
    go none true h f = inl (refl, h)
    go none false h f = (h, f)

pub compare_names-take :
    (n : ℕ) (name : List ℕ)
    → (compare_names (take n name) name ≡ lt) ⊎ (compare_names (take n name) name ≡ eq)
unfolding compare_names
compare_names-take zero [] = inr refl
compare_names-take zero (c ∷ cs) = inl refl
compare_names-take (suc n) [] = inr refl
compare_names-take (suc n) (c ∷ cs) = ground (arith, compare_names-take n cs)

compare_names-init :
    (n : ℕ) (name init : List ℕ) (c : ℕ)
    → take n name ≡ init ++ c ∷ []
    → compare_names init name ≡ lt
unfolding compare_names
compare_names-init zero name [] c e = cc
compare_names-init zero name (i ∷ init) c e = cc
compare_names-init (suc n) [] [] c e = cc
compare_names-init (suc n) [] (i ∷ init) c e = cc
compare_names-init (suc n) (d ∷ ds) [] c e = refl
compare_names-init (suc n) (d ∷ ds) (i ∷ init) c e =
    let head : d ≡ i = cc in
    let tail : take n ds ≡ init ++ c ∷ [] = cc in
    rw head (ground (arith, compare_names-init n ds init c tail))

pub query_parts :
    (names : Names) (xs : List ℕ)
    → (query_of names xs ≡ prefix_query xs)
      ⊎ ((init : List ℕ) × (c : ℕ) × (query_of names xs ≡ full_query init c)
          × (xs ≡ init ++ c ∷ []))
unfolding query_of
query_parts names [] = inl refl
query_parts names (c ∷ []) = elim (Bool-cases (names.is_digest c)) [
  | inl full ↦ inr ([], c, rw full refl, refl)
  | inr part ↦ inl (rw part refl)
]
query_parts names (c ∷ d ∷ ds) = elim (query_parts names (d ∷ ds)) [
  | inl part ↦ inl (rw part refl)
  | inr (init, e, full, same) ↦ inr (c ∷ init, e, rw full refl, ap (◌∷◌ c) same)
]

-- An entry is not before the query for the first components of its name.
not_before :
    (names : Names) (n : ℕ) (d : Data)
    → compare_query_with_data (query_of names (take n d.name)) d ≢ gt
unfolding compare_query_with_data
not_before names n d before = elim (query_parts names (take n d.name)) [
  | inl part ↦ absurd (ground (arith, part, compare_names-take n d.name))
  | inr (init, c, full, same) ↦
      absurd (ground (arith, full, compare_names-init n d.name init c same))
]

pub length-from_bound : (q : Query) (es : List Entry) → length (from_bound q es) ≤ length es
unfolding from_bound
length-from_bound q [] = omega arith
length-from_bound q (e ∷ es) = ground (arith, length-from_bound q es)

pub from_bound-suffix :
    (q : Query) (es : List Entry)
    → take (length es - length (from_bound q es)) es ++ from_bound q es ≡ es
unfolding from_bound
from_bound-suffix q [] = refl
from_bound-suffix q (e ∷ es) =
    go (compare_query_with_data q e.packet) (length-from_bound q es) (from_bound-suffix q es)
  where
    go :
        (o : Ordering)
        → length (from_bound q es) ≤ length es
        → take (length es - length (from_bound q es)) es ++ from_bound q es ≡ es
        → let r = elim o as (λ _. List Entry) [ gt ↦ from_bound q es | _ ↦ e ∷ es ] in
          take (suc (length es) - length r) (e ∷ es) ++ r ≡ e ∷ es
    go lt h s =
        let none_left : suc (length es) - suc (length es) ≡ 0 = omega arith in rw none_left refl
    go eq h s =
        let none_left : suc (length es) - suc (length es) ≡ 0 = omega arith in rw none_left refl
    go gt h s =
        let one_more : suc (length es) - length (from_bound q es)
            ≡ suc (length es - length (from_bound q es)) =
          omega arith in
        rw one_more (ap (◌∷◌ e) s)

from_bound-last :
    (q : Query) (es : List Entry) (prev : Entry)
    → last_of es ≡ some prev
    → compare_query_with_data q prev.packet ≢ gt
    → 0 < length (from_bound q es)
unfolding from_bound
from_bound-last q [] prev at h = cc
from_bound-last q (e ∷ []) prev at h =
    let same : e ≡ prev = cc in
    go (compare_query_with_data q e.packet)
      (λ g. h (ap (λ x. compare_query_with_data q x.packet) (sym same) ∙ g))
  where
    go : (o : Ordering) → o ≢ gt → 0 < length (elim o as (λ _. List Entry) [ gt ↦ [] | _ ↦ e ∷ [] ])
    go lt n = omega arith
    go eq n = omega arith
    go gt n = absurd (n refl)
from_bound-last q (e ∷ f ∷ es) prev at h =
    let more = from_bound-last q (f ∷ es) prev at h in ground arith

Found-append :
    (now : ℕ) (interest : CsInterest) (xs ys : List Entry) (r : Option Entry)
    → Found now interest ys none
    → Found now interest xs r
    → Found now interest (xs ++ ys) r
Found-append now interest [] ys none g f = g
Found-append now interest [] ys (some e) g f = absurd f
Found-append now interest (x ∷ xs) ys none g (h, f) = (h, Found-append now interest xs ys none g f)
Found-append now interest (x ∷ xs) ys (some e) g (inl h) = inl h
Found-append now interest (x ∷ xs) ys (some e) g (inr f) =
    inr (Found-append now interest xs ys (some e) g f)

Found-suffix :
    (now : ℕ) (interest : CsInterest) (xs ys : List Entry) (e : Entry)
    → Found now interest ys (some e)
    → Found now interest (xs ++ ys) (some e)
Found-suffix now interest [] ys e f = f
Found-suffix now interest (x ∷ xs) ys e f = inr (Found-suffix now interest xs ys e f)

pub last_of-none : (es : List Entry) → last_of es ≡ none → es ≡ []
last_of-none [] h = refl
last_of-none (e ∷ []) h = cc
last_of-none (e ∷ f ∷ es) h = absurd (no_entry (last_of-none (f ∷ es) h))
  where
    no_entry : (f ∷ es) ≢ []
    no_entry e = cc

-- The search for the rightmost match within a range, which the code's loop over iterators comes to.
abbrev pub part_under : Names → CsInterest → Entry → List Entry → List Entry
part_under names interest prev range =
    from_bound (query_of names (take (length interest.name + 1) prev.packet.name)) range

unfoldable pub round_within : Names → ℕ → CsInterest → List Entry → Round
round_within names now interest range = elim (last_of range) [
  | none ↦ done none
  | some prev ↦
      if length prev.packet.name == length interest.name
      then done (find_last now interest range)
      else round_under now interest range (part_under names interest prev range)
]

-- A round of the search that ends it has found what there is; else the entries after those left hold
-- nothing that satisfies the Interest, and there is one at least.
abbrev pub Rounds : ℕ → CsInterest → List Entry → Round → Type 0
Rounds now interest range (done r) = Found now interest range r
Rounds now interest range fault = ⊥
Rounds now interest range (next rest) =
    (length rest < length range)
    × ((k : ℕ) × (rest ≡ take k range))
    × ((r : Option Entry) → Found now interest rest r → Found now interest range r)

pub round_lem :
    (names : Names) (now : ℕ) (interest : CsInterest) (range : List Entry)
    → Rounds now interest range (round_within names now interest range)
unfolding round_within
round_lem names now interest range = by_last (last_of range) refl
  where
    by_left :
        (prev : Entry)
        → last_of range ≡ some prev
        → (r : Option Entry) → Found now interest (part_under names interest prev range) r
        → Rounds now interest range (elim r [
          | some e ↦ done (some e)
          | none ↦ next (take (length range - length (part_under names interest prev range)) range)
        ])
    by_left prev at (some e) f =
        let right = part_under names interest prev range in
        let front = take (length range - length right) range in
        subst (λ l. Found now interest l (some e))
          (from_bound-suffix (query_of names (take (length interest.name + 1) prev.packet.name))
            range)
          (Found-suffix now interest front right e f)
    by_left prev at none f =
        let right = part_under names interest prev range in
        let front = take (length range - length right) range in
        let q = query_of names (take (length interest.name + 1) prev.packet.name) in
        let some_right =
          from_bound-last q range prev at
            (not_before names (length interest.name + 1) prev.packet) in
        (
          omega (
            arith,
            some_right,
            length-from_bound q range,
            length-take (length range - length right) range,
          ),
          (length range - length right, refl),
          λ r g.
              subst (λ l. Found now interest l r) (from_bound-suffix q range)
                (Found-append now interest front right r f g),
        )

    by_last :
        (o : Option Entry)
        → last_of range ≡ o
        → Rounds now interest range (elim o [
          | none ↦ done none
          | some prev ↦
              if length prev.packet.name == length interest.name
              then done (find_last now interest range)
              else round_under now interest range (part_under names interest prev range)
        ])
    by_last none at = rw (last_of-none range at) tt
    by_last (some prev) at = elim (Bool-cases (length prev.packet.name == length interest.name)) [
      | inl exact ↦ rw exact (find_last_lem now interest range)
      | inr longer ↦
          let right = part_under names interest prev range in
          rw longer (
            by_left prev at (find_leftmost now interest right)
              (find_leftmost_lem now interest right))
    ]
