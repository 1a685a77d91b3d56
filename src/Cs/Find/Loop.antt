-- ===== src/Cs/Find/Loop.antt =====
-- The loop of `findRightmost` over the iterators of the table comes to the search within the range.
use mathlib.Core.Path.{subst}
use Prim.Native.Nat.Ordering.{gt}
use nfd_qo_s.Base.{
  ℕ, zero, suc, ◌+◌, ◌-◌, ◌≤◌, ◌≡◌, refl, sym, ap, ◌∙◌, ◌≢◌, inl, inr, true, false, Option, none,
  some, List, [], ◌∷◌, ◌++◌, arith, ltb, ◌==◌, if◌then◌else◌, Bool-cases, length, take, drop, All,
  length-append, All-weaken,
}
use nfd_qo_s.Cs.Store.{Names, query_of, from_bound}
use nfd_qo_s.Cs.Entry.{
  Data, CsInterest, Entry, compare_names, Query, prefix_query, full_query, compare_query_with_data,
}
use nfd_qo_s.Cs.Find.{
  find_leftmost, find_last, last_of, under, Round, done, next, fault, round_under, round,
  find_rightmost,
}
use nfd_qo_s.Cs.Find.Within.{Found, length-from_bound, part_under, round_within, Rounds, round_lem}

-- The entries before the range come before the Interest's name, and those in it are under the name.
abbrev pub AllBefore : List ℕ → List Entry → Type 0
AllBefore n = All (λ x. compare_names n x.packet.name ≡ gt)

abbrev pub AllUnder : List ℕ → List Entry → Type 0
AllUnder n = All (λ x. take (length n) x.packet.name ≡ n)

take_snoc :
    (n d : List ℕ)
    → take (length n) d ≡ n
    → length d ≢ length n
    → (c : ℕ) × (take (suc (length n)) d ≡ n ++ c ∷ [])
take_snoc [] [] here longer = absurd (longer refl)
take_snoc [] (c ∷ d) here longer = (c, refl)
take_snoc (e ∷ n) [] here longer = cc
take_snoc (e ∷ n) (c ∷ d) here longer =
    let head : c ≡ e = cc in
    let (f, same) = take_snoc n d (cc) (λ (h : length d ≡ length n). longer (ap suc h)) in
    (f, rw head (ap (◌∷◌ e) same))

query_of-snoc :
    (names : Names) (n : List ℕ) (c : ℕ)
    → query_of names (n ++ c ∷ [])
      ≡ (if names.is_digest c then full_query n c else prefix_query (n ++ c ∷ []))
unfolding query_of
query_of-snoc names [] c = refl
query_of-snoc names (e ∷ []) c = ground (arith)
query_of-snoc names (e ∷ f ∷ n) c = ground (arith, query_of-snoc names (f ∷ n) c)

compare_names-snoc :
    (n x : List ℕ) (c : ℕ) → compare_names n x ≡ gt → compare_names (n ++ c ∷ []) x ≡ gt
unfolding compare_names
compare_names-snoc [] [] c h = cc
compare_names-snoc [] (y ∷ x) c h = cc
compare_names-snoc (e ∷ n) [] c h = refl
compare_names-snoc (e ∷ n) (y ∷ x) c h = ground (arith, compare_names-snoc n x c)

query_of-before :
    (names : Names) (n : List ℕ) (c : ℕ) (x : Data)
    → compare_names n x.name ≡ gt
    → compare_query_with_data (query_of names (n ++ c ∷ [])) x ≡ gt
unfolding compare_query_with_data
query_of-before names n c x h =
    ground (arith, query_of-snoc names n c, h, compare_names-snoc n x.name c h)

from_bound-append :
    (q : Query) (before range : List Entry)
    → All (λ x. compare_query_with_data q x.packet ≡ gt) before
    → from_bound q (before ++ range) ≡ from_bound q range
unfolding from_bound
from_bound-append q [] range h = refl
from_bound-append q (x ∷ before) range (h, hs) =
    ground (arith, h, from_bound-append q before range hs)

from_bound-under :
    (names : Names) (interest : CsInterest) (prev : Entry) (before range : List Entry)
    → AllBefore interest.name before
    → take (length interest.name) prev.packet.name ≡ interest.name
    → length prev.packet.name ≢ length interest.name
    → under names interest prev (before ++ range) ≡ part_under names interest prev range
unfolding under
from_bound-under names interest prev before range first here longer =
    let n = interest.name in
    let (c, cut) = take_snoc n prev.packet.name here longer in
    let one_more : length n + 1 ≡ suc (length n) = omega arith in
    let cut' : take (length n + 1) prev.packet.name ≡ n ++ c ∷ [] =
      ap (λ k. take k prev.packet.name) one_more ∙ cut in
    from_bound-append (query_of names (take (length n + 1) prev.packet.name)) before range (
      subst (λ l. All (λ x. compare_query_with_data (query_of names l) x.packet ≡ gt) before)
        (sym cut')
        (All-weaken (λ x. compare_names n x.packet.name ≡ gt)
          (λ x. compare_query_with_data (query_of names (n ++ c ∷ [])) x.packet ≡ gt) before
          (λ x h. query_of-before names n c x.packet h) first))

last_of-append :
    (before range : List Entry) (prev : Entry)
    → last_of range ≡ some prev
    → last_of (before ++ range) ≡ some prev
last_of-append [] range prev h = h
last_of-append (x ∷ []) [] prev h = cc
last_of-append (x ∷ []) (y ∷ range) prev h = h
last_of-append (x ∷ y ∷ before) range prev h = last_of-append (y ∷ before) range prev h

last_of-All :
    (P : Entry → Type 0) (range : List Entry) (prev : Entry)
    → All P range
    → last_of range ≡ some prev
    → P prev
last_of-All P [] prev h at = cc
last_of-All P (x ∷ []) prev (h, hs) at = subst P (cc) h
last_of-All P (x ∷ y ∷ range) prev (h, hs) at = last_of-All P (y ∷ range) prev hs at

take-front :
    (before range : List Entry) (n : ℕ)
    → n ≤ length range
    → take (length (before ++ range) - n) (before ++ range)
      ≡ before ++ take (length range - n) range
take-front [] range n h = refl
take-front (x ∷ before) range n h =
    let more : suc (length (before ++ range)) - n ≡ suc (length (before ++ range) - n) =
      omega (arith, length-append before range) in
    ap (λ k. take k (x ∷ before ++ range)) more ∙ ap (◌∷◌ x) (take-front before range n h)

last_of-some : (x : Entry) (xs : List Entry) → (prev : Entry) × (last_of (x ∷ xs) ≡ some prev)
last_of-some x [] = (x, refl)
last_of-some x (y ∷ ys) = last_of-some y ys

drop-before : (before range : List Entry) → drop (length before) (before ++ range) ≡ range
drop-before [] range = refl
drop-before (x ∷ before) range = drop-before before range

abbrev behind : List Entry → Round → Round
behind before (done r) = done r
behind before (next rest) = next (before ++ rest)
behind before fault = fault

round_under-behind :
    (now : ℕ) (interest : CsInterest) (before range right : List Entry)
    → length right ≤ length range
    → round_under now interest (before ++ range) right
      ≡ behind before (round_under now interest range right)
round_under-behind now interest before range right few = go (find_leftmost now interest right)
  where
    go :
        (r : Option Entry)
        → (elim r as (λ _. Round) [
          | some e ↦ done (some e)
          | none ↦ next (take (length (before ++ range) - length right) (before ++ range))
        ])
          ≡ behind before (elim r as (λ _. Round) [
            | some e ↦ done (some e)
            | none ↦ next (take (length range - length right) range)
          ])
    go (some e) = refl
    go none = ap next (take-front before range (length right) few)

-- A round over the table is a round over the range, behind the entries before it.
round-behind :
    (names : Names) (now : ℕ) (interest : CsInterest) (before range : List Entry)
    → AllBefore interest.name before
    → AllUnder interest.name range
    → round names now interest (length before) (before ++ range)
      ≡ behind before (round_within names now interest range)
unfolding round round_within
round-behind names now interest before [] first here =
    let same : (length (before ++ []) == length before) ≡ true =
      ground (arith, length-append before []) in
    rw same refl
round-behind names now interest before (x ∷ xs) first here =
    let range = x ∷ xs in
    let (prev, at) = last_of-some x xs in
    let at' : last_of (before ++ range) ≡ some prev = last_of-append before range prev at in
    let more : (length (before ++ range) == length before) ≡ false =
      ground (arith, length-append before range) in
    let inside : ltb (length (before ++ range)) (length before) ≡ false =
      ground (arith, length-append before range) in
    let under_n =
      last_of-All (λ x. take (length interest.name) x.packet.name ≡ interest.name) range prev here
        at in
    let step : Option Entry → Round = λ o. elim o as (λ _. Round) [
      | none ↦ fault
      | some v ↦
          if length v.packet.name == length interest.name
          then (if ltb (length (before ++ range)) (length before)
              then fault
              else done (find_last now interest (drop (length before) (before ++ range))))
          else round_under now interest (before ++ range) (under names interest v (before ++ range))
    ] in
    let step_within : Option Entry → Round = λ o. elim o as (λ _. Round) [
      | none ↦ done none
      | some v ↦
          if length v.packet.name == length interest.name
          then done (find_last now interest range)
          else round_under now interest range (part_under names interest v range)
    ] in
    ap (λ b. if b then done none else step (last_of (before ++ range))) more
    ∙ ap step at'
    ∙ elim (Bool-cases (length prev.packet.name == length interest.name)) [
      | inl exact ↦
          rw (exact, inside) (ap (λ l. done (find_last now interest l)) (drop-before before range))
      | inr longer ↦
          let right : under names interest prev (before ++ range)
              ≡ part_under names interest prev range =
            from_bound-under names interest prev before range first under_n
              (ground (arith, longer)) in
          rw longer (
            ap (round_under now interest (before ++ range)) right
            ∙ round_under-behind now interest before range (part_under names interest prev range) (
                length-from_bound
                  (query_of names (take (length interest.name + 1) prev.packet.name)) range))
    ]
    ∙ sym (ap (λ o. behind before (step_within o)) at)

All-take : (P : Entry → Type 0) (k : ℕ) (xs : List Entry) → All P xs → All P (take k xs)
All-take P zero xs h = tt
All-take P (suc k) [] h = tt
All-take P (suc k) (x ∷ xs) (h, hs) = (h, All-take P k xs hs)

-- What the loop finds, with as much fuel as the range has entries.
abbrev Finds : ℕ → CsInterest → List Entry → Option (Option Entry) → Type 0
Finds now interest range result =
    (r : Option Entry) × (result ≡ some r) × Found now interest range r

-- The loop of `findRightmost` ends within the range.
pub find_rightmost_lem :
    (fuel : ℕ) (names : Names) (now : ℕ) (interest : CsInterest) (before range : List Entry)
    → AllBefore interest.name before
    → AllUnder interest.name range
    → length range ≤ fuel
    → (r : Option Entry) × (find_rightmost fuel names now interest (length before) (before ++ range)
        ≡ some r)
      × Found now interest range r
unfolding find_rightmost
find_rightmost_lem zero names now interest before range first here h =
    subst
      (λ d. Finds now interest range (elim d as (λ _. Option (Option Entry)) [
        | done r ↦ some r
        | next rest ↦ none
        | fault ↦ none
      ]))
      (sym (round-behind names now interest before range first here))
      (go (round_within names now interest range) (round_lem names now interest range))
  where
    go :
        (d : Round)
        → Rounds now interest range d
        → Finds now interest range (elim (behind before d) as (λ _. Option (Option Entry)) [
          | done r ↦ some r
          | next rest ↦ none
          | fault ↦ none
        ])
    go (done r) f = (r, refl, f)
    go (next rest) f = absurd (omega (arith, f.0))
    go fault f = absurd f
find_rightmost_lem (suc fuel) names now interest before range first here h =
    subst
      (λ d. Finds now interest range (elim d as (λ _. Option (Option Entry)) [
        | done r ↦ some r
        | next rest ↦ find_rightmost fuel names now interest (length before) rest
        | fault ↦ none
      ]))
      (sym (round-behind names now interest before range first here))
      (go (round_within names now interest range) (round_lem names now interest range) (λ k less.
        find_rightmost_lem fuel names now interest before (take k range) first
          (All-take (λ x. take (length interest.name) x.packet.name ≡ interest.name) k range here)
          less))
  where
    go :
        (d : Round)
        → Rounds now interest range d
        → ((k : ℕ)
            → length (take k range) ≤ fuel
            → (r : Option Entry) × (find_rightmost fuel names now interest
                  (length before)
                  (before ++ take k range)
                ≡ some r)
              × Found now interest (take k range) r)
        → Finds now interest range (elim (behind before d) as (λ _. Option (Option Entry)) [
          | done r ↦ some r
          | next rest ↦ find_rightmost fuel names now interest (length before) rest
          | fault ↦ none
        ])
    go (done r) f again = (r, refl, f)
    go fault f again = absurd f
    go (next rest) (less, (k, cut), f) again =
        let (r, run, found) = again k (omega (arith, ap length cut)) in
        (
          r,
          ap (λ l. find_rightmost fuel names now interest (length before) (before ++ l)) cut ∙ run,
          f r (subst (λ l. Found now interest l r) (sym cut) found),
        )
