-- ===== src/Table/Tests.antt =====
-- Runs of the operations of a PIT entry on small inputs.
use mathlib.Core.Option
use nfd_qo_s.Base.{
  ℕ, ◌+◌, ◌*◌, ◌/◌, ◌≤◌, ◌<◌, ◌≡◌, refl, ◌∙◌, ◌≢◌, ◌⊎◌, inl, inr, Bool, true, ◌&&◌, none, some,
  List, [], ◌∷◌, arith, leb, ◌==◌, if◌then◌else◌, tests, Bool-cases, length, All, All-weaken,
}
use nfd_qo_s.Table.Records.{find_record}
use nfd_qo_s.Table.Pit.{
  Interest, InRecord, OutRecord, new_out_record, PitEntry, new_entry, get_out_record,
  insert_or_update_out_record,
}
use nfd_qo_s.Table.Pit.Entry.{IsValid, insert_or_update_out_record_lem}
use nfd_qo_s.Table.Fib.{NextHop, FibEntry, is_hop, count, IsSorted, Sort, add_or_update_next_hop}
use nfd_qo_s.Table.Fib.Entry.{IsValidFib, IsApart, add_or_update_next_hop_lem}
use nfd_qo_s.Table.DeadNonceList.{
  expected_mark_count, Params, DeadNonceList, has, add, adjust_capacity,
}
use nfd_qo_s.Table.DeadNonceList.Retention.{added, marked, run, has-run_add}
use nfd_qo_s.Table.DeadNonceList.Capacity.{IsBounded, left, add_lem, adjust_capacity_lem}
use nfd_qo_s.Base.Int.{pos, negsuc}

abbrev ask : Interest
ask = record { name = 8 ∷ 1 ∷ 65 ∷ []; nonce = 7; lifetime = pos 500 }

-- A negative lifetime stands for the default one.
abbrev ask_again : Interest
ask_again = record ask { nonce = 9; lifetime = negsuc 0 }

abbrev from_one : InRecord
from_one = record {
  base = record { face = 1; last_nonce = 7; last_renewed = 100; expiry = 600 };
  interest = some ask;
}

abbrev to_two : OutRecord
to_two = record {
  base = record { face = 2; last_nonce = 7; last_renewed = 100; expiry = 600 };
  incoming_nack = some 150;
  suppression_interval = none;
}

abbrev entry : PitEntry
entry = record (new_entry ask) { in_records = from_one ∷ []; out_records = to_two ∷ [] }

entry-IsValid : IsValid entry
entry-IsValid = record { in_distinct = (tt, tt); out_distinct = (tt, tt) }

one_not_two : ◌≢◌ {A = ℕ} 1 2
one_not_two e = omega (arith, e)

three_not_one : ◌≢◌ {A = ℕ} 3 1
three_not_one e = omega (arith, e)

found : get_out_record 2 entry ≡ some to_two
unfolding find_record
found = refl

insert_or_update_out_record_lem_example :
    let e' = insert_or_update_out_record 4000 300 2 ask_again entry in
    let old = Option.get_or (get_out_record 2 entry) (new_out_record 2) in
    (get_out_record 2 e'
      ≡ some (record old {
        base = record { face = 2; last_nonce = 9; last_renewed = 300; expiry = 4300 };
      }))
    × (get_out_record 1 e' ≡ get_out_record 1 entry)
    × (e'.in_records ≡ from_one ∷ [])
    × IsValid e'
insert_or_update_out_record_lem_example =
    insert_or_update_out_record_lem 4000 300 2 ask_again entry entry-IsValid 1 one_not_two

abbrev params : Params
params = record {
  hash = λ name nonce. length name + 2 * nonce;
  up = λ n. n * 6 / 5;
  down = λ n. n * 9 / 10;
}

abbrev short : DeadNonceList
short = record { queue = 0 ∷ 9 ∷ 9 ∷ []; capacity = 8; actual_mark_counts = 6 ∷ 7 ∷ [] }

has-run_add_example :
    has params
      (run params (added (65 ∷ []) 8 ∷ marked ∷ []) (add params (66 ∷ []) 3 short))
      (66 ∷ [])
      3
    ≡ true
has-run_add_example =
    has-run_add params short (66 ∷ []) 3 (added (65 ∷ []) 8 ∷ marked ∷ []) (omega arith)

add_lem_example :
    let l' = add params (66 ∷ []) 3 short in
    (l'.capacity ≡ 8) × (l'.actual_mark_counts ≡ 6 ∷ 7 ∷ []) × (length l'.queue ≡ left 4 8)
add_lem_example = add_lem params (66 ∷ []) 3 short

adjust_capacity_lem_example :
    let l' = adjust_capacity params short in
    IsBounded l'
    × (l'.actual_mark_counts ≡ [])
    × ((8 ≤ l'.capacity) ⊎ All (λ n. expected_mark_count < n) (6 ∷ 7 ∷ []))
    × ((l'.capacity ≤ 8) ⊎ All (λ n. n < expected_mark_count) (6 ∷ 7 ∷ []))
    × (length l'.queue ≡ left 3 l'.capacity)
adjust_capacity_lem_example =
    adjust_capacity_lem params short (λ n. omega arith) (λ n. omega arith)
      (omega arith, omega arith)

-- Insertion sort meets the laws of the sort.
insert_hop : NextHop → List NextHop → List NextHop
insert_hop h [] = h ∷ []
insert_hop h (k ∷ ks) =
    let rest = insert_hop h ks in if leb h.cost k.cost then h ∷ k ∷ ks else k ∷ rest

insertion_sort : List NextHop → List NextHop
insertion_sort [] = []
insertion_sort (h ∷ hs) = insert_hop h (insertion_sort hs)

count-insert_hop :
    (test : NextHop → Bool) (h : NextHop) (ks : List NextHop)
    → count test (insert_hop h ks) ≡ count test (h ∷ ks)
unfolding insert_hop count
count-insert_hop test h [] = refl
count-insert_hop test h (k ∷ ks) = elim (Bool-cases (leb h.cost k.cost)) [
  | inl before ↦ rw before refl
  | inr after ↦ rw after (omega (arith, count-insert_hop test h ks))
]

All-insert_hop :
    (c : ℕ) (h : NextHop) (ks : List NextHop)
    → c ≤ h.cost
    → All (λ k. c ≤ k.cost) ks
    → All (λ k. c ≤ k.cost) (insert_hop h ks)
unfolding insert_hop
All-insert_hop c h [] e a = (e, tt)
All-insert_hop c h (k ∷ ks) e a = elim (Bool-cases (leb h.cost k.cost)) [
  | inl before ↦ rw before (e, a)
  | inr after ↦ rw after (a.0, All-insert_hop c h ks e a.1)
]

IsSorted-insert_hop : (h : NextHop) (ks : List NextHop) → IsSorted ks → IsSorted (insert_hop h ks)
unfolding insert_hop
IsSorted-insert_hop h [] s = (tt, tt)
IsSorted-insert_hop h (k ∷ ks) s = elim (Bool-cases (leb h.cost k.cost)) [
  | inl before ↦ rw before ((omega tests, All-weaken _ _ ks (λ j le. omega tests) s.0), s)
  | inr after ↦
      rw after (All-insert_hop k.cost h ks (ground arith) s.0, IsSorted-insert_hop h ks s.1)
]

insertion_sort-IsSorted : (hs : List NextHop) → IsSorted (insertion_sort hs)
unfolding insertion_sort
insertion_sort-IsSorted [] = tt
insertion_sort-IsSorted (h ∷ hs) =
    IsSorted-insert_hop h (insertion_sort hs) (insertion_sort-IsSorted hs)

count-insertion_sort :
    (test : NextHop → Bool) (hs : List NextHop) → count test (insertion_sort hs) ≡ count test hs
unfolding insertion_sort count
count-insertion_sort test [] = refl
count-insertion_sort test (h ∷ hs) =
    count-insert_hop test h (insertion_sort hs) ∙ omega (arith, count-insertion_sort test hs)

abbrev by_insertion : Sort
by_insertion = record {
  sort = insertion_sort;
  sort-IsSorted = insertion_sort-IsSorted;
  count-sort = count-insertion_sort;
}

abbrev two_hops : FibEntry
two_hops = record {
  prefix = [];
  next_hops =
      record { face = 1; endpoint_id = 0; cost = 10 }
      ∷ record { face = 2; endpoint_id = 0; cost = 20 }
      ∷ [];
}

two_hops-IsValidFib : IsValidFib two_hops
unfolding count
two_hops-IsValidFib = record {
  in_order = ((omega arith, tt), (tt, tt));
  distinct = λ face endpoint. ground arith;
}

abbrev is_face_one : NextHop → Bool
is_face_one h = h.face == 1

IsApart-two : IsApart 2 0 is_face_one
IsApart-two h e = ground arith

add_or_update_next_hop_lem_example :
    let e' = add_or_update_next_hop by_insertion 2 0 5 two_hops in
    IsValidFib e'
    × (e'.prefix ≡ [])
    × (count (λ h. is_hop 2 0 h && h.cost == 5) e'.next_hops ≡ 1)
    × (count is_face_one e'.next_hops ≡ count is_face_one two_hops.next_hops)
add_or_update_next_hop_lem_example =
    add_or_update_next_hop_lem by_insertion 2 0 5 two_hops is_face_one two_hops-IsValidFib
      IsApart-two
