-- ===== src/Cs/Tests.antt =====
-- Runs of the content store on small inputs.
use Prim.Native.Nat.Ordering.{gt}
use nfd_qo_s.Base.{
  ℕ, suc, ◌+◌, ◌≤◌, min, ◌≡◌, refl, ◌≢◌, true, false, Option, some, List, [], ◌∷◌, arith, length,
  take,
}
use nfd_qo_s.Cs.Entry.{Data, CsInterest, Entry, compare_names, prefix_query}
use nfd_qo_s.Cs.Store.{
  Cs, emplace, Names, query_of, range_of, set_limit, made, insert_data, erase_data,
}
use nfd_qo_s.Cs.Store.Invariant.{table_handles, IsStore, set_limit_lem}
use nfd_qo_s.Cs.Find.Bounds.{IsNames}
use nfd_qo_s.Cs.Lru.{lru, lru-IsPolicy, lru-Keeps}
use nfd_qo_s.Cs.Find.{find_data}
use nfd_qo_s.Cs.Store.Changes.{insert_data_lem, Erases, erase_data_lem}
use nfd_qo_s.Cs.Lru.Recency.{after_insert, insert_data-recency}
use nfd_qo_s.Base.Occurs.{occurs}
use nfd_qo_s.Cs.Find.Answers.{Answers, find_data_lem}

abbrev sensor : Data
sensor = record { name = 8 ∷ 65 ∷ []; digest = 4; freshness_period = 10; no_cache = false }

abbrev camera : Data
camera = record { name = 8 ∷ 70 ∷ []; digest = 9; freshness_period = 0; no_cache = false }

abbrev sensor_entry : Entry
sensor_entry = record { handle = 0; packet = sensor; is_unsolicited = false; stale_time = 30 }

-- A store of one entry that is full.
abbrev full : Cs lru
full = record {
  table = sensor_entry ∷ [];
  policy = 0 ∷ [];
  limit = 1;
  should_admit = true;
  should_serve = true;
  next = 1;
}

full-IsStore : IsStore lru lru-IsPolicy full
full-IsStore = record {
  consistent = record {
    keeps = lru-Keeps full.policy;
    same = λ i. refl;
    once = λ i. few i;
    unused = λ i new. none_new i new;
  };
  within = omega arith;
}
  where
    few : (i : ℕ) → occurs i (table_handles full.table) ≤ 1
    few i = ground arith

    none_new : (i : ℕ) → full.next ≤ i → occurs i (table_handles full.table) ≡ 0
    none_new i new = ground arith

-- No component of these names is a digest.
abbrev names : Names
names = record { is_digest = λ c. false; successor = next_of }
  where
    next_of : List ℕ → List ℕ
    next_of [] = []
    next_of (c ∷ []) = suc c ∷ []
    next_of (c ∷ d ∷ ds) = c ∷ next_of (d ∷ ds)

abbrev any_sensor : CsInterest
any_sensor = record {
  name = 8 ∷ [];
  is_rightmost = true;
  must_be_fresh = true;
  matches_data = λ d. true;
}

insert_data_lem_example :
    (cs' : Cs lru) × (insert_data lru 50 camera true full ≡ some cs')
    × IsStore lru lru-IsPolicy cs'
    × (cs'.limit ≡ 1)
insert_data_lem_example = insert_data_lem lru lru-IsPolicy 50 camera true full full-IsStore

insert_data-recency_example :
    (cs' : Cs lru) × (insert_data lru 50 camera true full ≡ some cs')
    × (cs'.policy ≡ after_insert (emplace (made lru 50 camera true full) full.table) full)
insert_data-recency_example = insert_data-recency 50 camera true full full-IsStore refl refl

set_limit_lem_example :
    (cs' : Cs lru) × (set_limit lru 0 full ≡ some cs')
    × IsStore lru lru-IsPolicy cs'
    × (length cs'.table ≡ min (length full.table) 0)
    × (cs'.limit ≡ 0)
set_limit_lem_example = set_limit_lem lru lru-IsPolicy 0 full full-IsStore

erase_data_lem_example :
    (cs' : Cs lru) × (n : ℕ) × (erase_data lru names (8 ∷ []) 5 full ≡ some (cs', n))
    × IsStore lru lru-IsPolicy cs'
    × (n ≡ min 5 (length (range_of names (8 ∷ []) full.table)))
    × (length cs'.table + n ≡ length full.table)
    × Erases lru lru-IsPolicy 5 (range_of names (8 ∷ []) full.table) full cs'
erase_data_lem_example = erase_data_lem lru lru-IsPolicy names (8 ∷ []) 5 full full-IsStore

next_of-under :
    (n x : List ℕ)
    → compare_names n x ≢ gt
    → compare_names (names.successor n) x ≡ gt
    → take (length n) x ≡ n
unfolding compare_names
next_of-under [] x after before = refl
next_of-under (c ∷ []) [] after before = absurd (after refl)
next_of-under (c ∷ []) (e ∷ []) after before = ground (arith, after, before)
next_of-under (c ∷ []) (e ∷ f ∷ x) after before = ground (arith, after, before)
next_of-under (c ∷ d ∷ ds) [] after before = absurd (after refl)
next_of-under (c ∷ d ∷ ds) (e ∷ x) after before =
    ground (arith, after, before, next_of-under (d ∷ ds) x)

query_of-plain : (n : List ℕ) → query_of names n ≡ prefix_query n
unfolding query_of
query_of-plain [] = refl
query_of-plain (c ∷ []) = refl
query_of-plain (c ∷ d ∷ ds) = rw (query_of-plain (d ∷ ds)) refl

names-IsNames : IsNames names
names-IsNames = record {
  successor_under = next_of-under;
  successor_plain = λ n h. query_of-plain (names.successor n);
}

find_data_lem_example :
    (r : Option Data) × (cs' : Cs lru) × (find_data lru names 20 any_sensor full ≡ some (r, cs'))
    × Answers lru lru-IsPolicy names 20 any_sensor full r
    × IsStore lru lru-IsPolicy cs'
    × (cs'.table ≡ full.table)
find_data_lem_example =
    find_data_lem lru lru-IsPolicy names 20 any_sensor full full-IsStore names-IsNames (tt, tt)
      (query_of-plain (8 ∷ []))
