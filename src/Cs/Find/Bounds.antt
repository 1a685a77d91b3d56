-- ===== src/Cs/Find/Bounds.antt =====
-- The bounds of a search, in an ordered table: what is before the range and what is in it.
use mathlib.Core.Path.{subst}
use Prim.Native.Nat.{Ordering}
use Prim.Native.Nat.Ordering.{lt, eq, gt}
use nfd_qo_s.Base.{
  ℕ, zero, suc, ◌-◌, ◌≤◌, ◌≡◌, refl, sym, ◌≢◌, inl, inr, List, [], ◌∷◌, ◌++◌, arith, length, take,
  All, length-append, All-weaken,
}
use nfd_qo_s.Cs.Entry.{
  Data, Entry, compare_names, compare_data_with_data, prefix_query, compare_query_with_data,
}
use nfd_qo_s.Cs.Store.{Names, query_of, from_bound, range_of}
use nfd_qo_s.Cs.Order.{IsOrdered, compare_names-split}
use nfd_qo_s.Cs.Find.Loop.{AllBefore, AllUnder}
use nfd_qo_s.Cs.Find.Within.{length-from_bound, from_bound-suffix}

-- What `getSuccessor` documents: the names from a prefix on that are before its successor are those under
-- the prefix. The last component of a successor is no digest unless that of the prefix is one.
pub record IsNames (names : Names) : Type 0 where
  pub successor_under :
      (n x : List ℕ)
      → compare_names n x ≢ gt
      → compare_names (names.successor n) x ≡ gt
      → take (length n) x ≡ n
  pub successor_plain :
      (n : List ℕ)
      → query_of names n ≡ prefix_query n
      → query_of names (names.successor n) ≡ prefix_query (names.successor n)

plain-gt :
    (n : List ℕ) (d : Data)
    → compare_query_with_data (prefix_query n) d ≡ gt
    → compare_names n d.name ≡ gt
unfolding compare_query_with_data
plain-gt n d h = ground (arith, h)

pub from_bound-before :
    (n : List ℕ) (es : List Entry)
    → AllBefore n (take (length es - length (from_bound (prefix_query n) es)) es)
unfolding from_bound
from_bound-before n [] = tt
from_bound-before n (e ∷ es) =
    go (compare_query_with_data (prefix_query n) e.packet) refl
      (length-from_bound (prefix_query n) es) (from_bound-before n es)
  where
    go :
        (o : Ordering)
        → compare_query_with_data (prefix_query n) e.packet ≡ o
        → length (from_bound (prefix_query n) es) ≤ length es
        → AllBefore n (take (length es - length (from_bound (prefix_query n) es)) es)
        → AllBefore n (
            take
              (suc (length es)
                - length (elim o as (λ _. List Entry) [
                  | gt ↦ from_bound (prefix_query n) es
                  | _ ↦ e ∷ es
                ]))
              (e ∷ es))
    go lt h few r =
        let none_left : suc (length es) - suc (length es) ≡ 0 = omega arith in rw none_left tt
    go eq h few r =
        let none_left : suc (length es) - suc (length es) ≡ 0 = omega arith in rw none_left tt
    go gt h few r =
        let one_more : suc (length es) - length (from_bound (prefix_query n) es)
            ≡ suc (length es - length (from_bound (prefix_query n) es)) =
          omega arith in
        rw one_more (plain-gt n e.packet h, r)

data-not_gt : (d c : Data) → compare_data_with_data d c ≡ lt → compare_names d.name c.name ≢ gt
unfolding compare_data_with_data
data-not_gt d c h g = ground (arith, h, g)

stays_after :
    (n : List ℕ) (e x : Data)
    → compare_names n e.name ≢ gt
    → compare_data_with_data e x ≡ lt
    → compare_names n x.name ≢ gt
stays_after n e x at less h = elim (compare_names-split n e.name x.name h) [
  | inl g ↦ at g
  | inr g ↦ data-not_gt e x less g
]

plain-not_gt :
    (n : List ℕ) (d : Data)
    → compare_query_with_data (prefix_query n) d ≢ gt
    → compare_names n d.name ≢ gt
unfolding compare_query_with_data
plain-not_gt n d h g = h (ground (arith, g))

AllAfter : List ℕ → List Entry → Type 0
AllAfter n = All (λ x. compare_names n x.packet.name ≢ gt)

from_bound-after :
    (n : List ℕ) (es : List Entry) → IsOrdered es → AllAfter n (from_bound (prefix_query n) es)
unfolding from_bound AllAfter
from_bound-after n [] o = tt
from_bound-after n (e ∷ es) (first, o) =
    go (compare_query_with_data (prefix_query n) e.packet) refl (from_bound-after n es o)
  where
    here : compare_query_with_data (prefix_query n) e.packet ≢ gt → AllAfter n (e ∷ es)
    here h =
        let at = plain-not_gt n e.packet h in
        (
          at,
          All-weaken (λ x. compare_data_with_data e.packet x.packet ≡ lt)
              (λ x. compare_names n x.packet.name ≢ gt) es
              (λ x less. stays_after n e.packet x.packet at less) first,
        )

    go :
        (o : Ordering)
        → compare_query_with_data (prefix_query n) e.packet ≡ o
        → AllAfter n (from_bound (prefix_query n) es)
        → AllAfter n
            (elim o as (λ _. List Entry) [ gt ↦ from_bound (prefix_query n) es | _ ↦ e ∷ es ])
    go lt h r = here (λ (g : compare_query_with_data (prefix_query n) e.packet ≡ gt). absurd (cc))
    go eq h r = here (λ (g : compare_query_with_data (prefix_query n) e.packet ≡ gt). absurd (cc))
    go gt h r = r

part_before :
    (n : List ℕ) (front first : List Entry)
    → AllBefore n
        (take (length first - length (from_bound (prefix_query n) (front ++ first))) first)
unfolding from_bound
part_before n [] first = from_bound-before n first
part_before n (e ∷ front) first =
    go (compare_query_with_data (prefix_query n) e.packet) (part_before n front first)
  where
    go :
        (o : Ordering)
        → AllBefore n
            (take (length first - length (from_bound (prefix_query n) (front ++ first))) first)
        → AllBefore n (
            take
              (length first
                - length (elim o as (λ _. List Entry) [
                  | gt ↦ from_bound (prefix_query n) (front ++ first)
                  | _ ↦ e ∷ front ++ first
                ]))
              first)
    go lt r =
        let none_left : length first - suc (length (front ++ first)) ≡ 0 =
          omega (arith, length-append front first) in
        rw none_left tt
    go eq r =
        let none_left : length first - suc (length (front ++ first)) ≡ 0 =
          omega (arith, length-append front first) in
        rw none_left tt
    go gt r = r

All-both :
    (n m : List ℕ) (P : Entry → Type 0) (es : List Entry)
    → ((x : Entry) → compare_names n x.packet.name ≢ gt → compare_names m x.packet.name ≡ gt → P x)
    → AllAfter n es
    → AllBefore m es
    → All P es
unfolding AllAfter
All-both n m P [] f after before = tt
All-both n m P (x ∷ es) f (a, after) (b, before) = (f x a b, All-both n m P es f after before)

AllAfter-take : (n : List ℕ) (k : ℕ) (es : List Entry) → AllAfter n es → AllAfter n (take k es)
unfolding AllAfter
AllAfter-take n zero es h = tt
AllAfter-take n (suc k) [] h = tt
AllAfter-take n (suc k) (e ∷ es) (h, hs) = (h, AllAfter-take n k es hs)

AllUnder-nil : (es : List Entry) → AllUnder [] es
AllUnder-nil [] = tt
AllUnder-nil (e ∷ es) = (refl, AllUnder-nil es)

-- In an ordered table the range of a name without a digest holds entries under the name only.
pub range_of-under :
    (names : Names) (n : List ℕ) (table : List Entry)
    → IsNames names
    → IsOrdered table
    → query_of names n ≡ prefix_query n
    → AllUnder n (range_of names n table)
range_of-under names [] table laws o plain = AllUnder-nil (range_of names [] table)
range_of-under names (c ∷ n) table laws o plain =
    let name = c ∷ n in
    let next_name = names.successor name in
    let first = from_bound (prefix_query name) table in
    let front = take (length table - length first) table in
    let part = take (length first - length (from_bound (prefix_query next_name) table)) first in
    let before : AllBefore next_name part =
      subst
        (λ t.
          AllBefore next_name
            (take (length first - length (from_bound (prefix_query next_name) t)) first))
        (from_bound-suffix (prefix_query name) table) (part_before next_name front first) in
    let after : AllAfter name part =
      AllAfter-take name (length first - length (from_bound (prefix_query next_name) table)) first
        (from_bound-after name table o) in
    subst
      (λ q. AllUnder name (
        take (length (from_bound q table) - length (from_bound (query_of names next_name) table))
          (from_bound q table)))
      (sym plain)
      (subst (λ q. AllUnder name (take (length first - length (from_bound q table)) first))
        (sym (laws.successor_plain name plain))
        (All-both name next_name (λ x. take (length name) x.packet.name ≡ name) part
          (λ x. laws.successor_under name x.packet.name) after before))
