-- ===== src/Cs/Store/Invariant.antt =====
-- The table and the policy hold the same entries, and no more than the limit.
use nfd_qo_s.Base.{
  ℕ, zero, suc, ◌+◌, ◌-◌, ◌≤◌, ◌<◌, min, ◌≡◌, refl, ap, ◌∙◌, ◌⊎◌, inl, inr, Bool, true, false, some,
  List, [], ◌∷◌, arith, leb, ◌==◌, if◌then◌else◌, tests, Bool-cases, length, take, null,
}
use Prim.Native.Nat.{Ordering}
use Prim.Native.Nat.Ordering.{lt, eq, gt}
use nfd_qo_s.Base.Occurs.{occurs, erase, occurs-erase, length-erase}
use nfd_qo_s.Cs.Store.{
  Cs, Emplace, place, emplace, put_entry, erase_entry, Names, query_of, from_bound, range_of,
  evict_entries, set_limit,
}
use nfd_qo_s.Cs.Entry.{Entry, compare_data_with_data, Query}
use nfd_qo_s.Cs.Policy.{Policy, IsPolicy}

abbrev pub table_handles : List Entry → List ℕ
table_handles [] = []
table_handles (e ∷ es) = e.handle ∷ table_handles es

pub length-table_handles : (es : List Entry) → length (table_handles es) ≡ length es
length-table_handles [] = refl
length-table_handles (e ∷ es) = ap suc (length-table_handles es)

pub handles-put_entry :
    (e : Entry) (es : List Entry) → table_handles (put_entry e es) ≡ table_handles es
unfolding put_entry
handles-put_entry e [] = refl
handles-put_entry e (x ∷ xs) = ground (arith, handles-put_entry e xs)

pub length-put_entry : (e : Entry) (es : List Entry) → length (put_entry e es) ≡ length es
unfolding put_entry
length-put_entry e [] = refl
length-put_entry e (x ∷ xs) = ground (arith, length-put_entry e xs)

handles-erase_entry :
    (h : ℕ) (es : List Entry) → table_handles (erase_entry h es) ≡ erase h (table_handles es)
unfolding erase_entry erase
handles-erase_entry h [] = refl
handles-erase_entry h (x ∷ xs) = ground (arith, handles-erase_entry h xs)

pub erased :
    (h : ℕ) (es : List Entry) (i : ℕ)
    → occurs i (table_handles (erase_entry h es))
      ≡ (if h == i then occurs i (table_handles es) - 1 else occurs i (table_handles es))
erased h es i = ap (occurs i) (handles-erase_entry h es) ∙ occurs-erase h i (table_handles es)

-- What `emplace` says: the entry is new, or an entry of the table has its full name.
abbrev pub Emplaced : Entry → List Entry → List Entry × Entry × Bool → Type 0
Emplaced e es (es', found, is_new) =
    ((is_new ≡ true)
      × (found ≡ e)
      × ((i : ℕ)
          → occurs i (table_handles es')
            ≡ (if e.handle == i then 1 else 0) + occurs i (table_handles es)))
    ⊎ ((is_new ≡ false) × (es' ≡ es) × (0 < occurs found.handle (table_handles es)))

place_lem :
    (o : Ordering) (e x : Entry) (xs : List Entry) (rest : Emplace)
    → Emplaced e xs rest
    → Emplaced e (x ∷ xs) (place o e x xs rest)
place_lem lt e x xs rest h = inl (refl, refl, λ i. refl)
place_lem eq e x xs rest h = inr (refl, refl, ground arith)
place_lem gt e x xs (xs', found, is_new) (inl (n, same, counts)) =
    inl (n, same, λ i. omega (arith, counts i))
place_lem gt e x xs (xs', found, is_new) (inr (old, same, some_found)) =
    inr (old, ap (◌∷◌ x) same, omega arith)

pub emplace_lem : (e : Entry) (es : List Entry) → Emplaced e es (emplace e es)
unfolding emplace
emplace_lem e [] = inl (refl, refl, λ i. refl)
emplace_lem e (x ∷ xs) =
    place_lem (compare_data_with_data e.packet x.packet) e x xs (emplace e xs) (emplace_lem e xs)

occurs-take :
    (i n : ℕ) (es : List Entry) → occurs i (table_handles (take n es)) ≤ occurs i (table_handles es)
occurs-take i zero es = omega arith
occurs-take i (suc n) [] = omega arith
occurs-take i (suc n) (e ∷ es) = omega (arith, occurs-take i n es)

occurs-from_bound :
    (i : ℕ) (q : Query) (es : List Entry)
    → occurs i (table_handles (from_bound q es)) ≤ occurs i (table_handles es)
unfolding from_bound
occurs-from_bound i q [] = omega arith
occurs-from_bound i q (e ∷ es) = ground (arith, occurs-from_bound i q es)

pub occurs-range_of :
    (i : ℕ) (names : Names) (prefix : List ℕ) (es : List Entry)
    → occurs i (table_handles (range_of names prefix es)) ≤ occurs i (table_handles es)
occurs-range_of i names prefix es = omega (
  arith,
  occurs-take i
      (length (from_bound (query_of names prefix) es)
        - length
            (if null prefix then [] else from_bound (query_of names (names.successor prefix)) es))
      (from_bound (query_of names prefix) es),
  occurs-from_bound i (query_of names prefix) es,
)

length-place :
    (o : Ordering) (e x : Entry) (xs : List Entry) (rest : Emplace)
    → (rest.2 ≡ true → length rest.0 ≡ length xs + 1)
    → (place o e x xs rest).2 ≡ true
    → length (place o e x xs rest).0 ≡ length (x ∷ xs) + 1
length-place lt e x xs rest h new = omega arith
length-place eq e x xs rest h new = cc
length-place gt e x xs rest h new = omega (arith, h new)

pub length-emplace :
    (e : Entry) (es : List Entry)
    → (emplace e es).2 ≡ true
    → length (emplace e es).0 ≡ length es + 1
unfolding emplace
length-emplace e [] new = refl
length-emplace e (x ∷ xs) new =
    length-place (compare_data_with_data e.packet x.packet) e x xs (emplace e xs)
      (length-emplace e xs) new

module _ (p : Policy) (laws : IsPolicy p) where
  -- The policy keeps each entry of the table once, and numbers for new entries are not in use.
  pub record IsConsistent (cs : Cs p) : Type 0 where
    pub keeps : laws.Keeps cs.policy
    pub same : (i : ℕ) → occurs i (table_handles cs.table) ≡ occurs i (p.handles cs.policy)
    pub once : (i : ℕ) → occurs i (table_handles cs.table) ≤ 1
    pub unused : (i : ℕ) → cs.next ≤ i → occurs i (table_handles cs.table) ≡ 0

  pub record IsStore (cs : Cs p) : Type 0 where
    pub consistent : IsConsistent cs
    pub within : length cs.table ≤ cs.limit

  pub IsConsistent-erase :
      (cs : Cs p) (h : ℕ) (policy : p.State)
      → IsConsistent cs
      → laws.Keeps policy
      → ((i : ℕ)
          → occurs i (p.handles policy) ≡ (if h == i then 0 else occurs i (p.handles cs.policy)))
      → IsConsistent (record cs { table = erase_entry h cs.table; policy = policy })
  IsConsistent-erase cs h policy c keeps gone = record {
    keeps = keeps;
    same = λ i. ground (arith, erased h cs.table i, gone i, c.same i, c.once i);
    once = λ i. ground (arith, erased h cs.table i, c.once i);
    unused = λ i new. ground (arith, erased h cs.table i, c.unused i new);
  }

  pub length-erase_entry :
      (h : ℕ) (es : List Entry)
      → 0 < occurs h (table_handles es)
      → length (erase_entry h es) + 1 ≡ length es
  length-erase_entry h es some_h = omega (
    arith,
    length-table_handles es,
    length-table_handles (erase_entry h es),
    ap length (handles-erase_entry h es),
    length-erase h (table_handles es) some_h,
  )

  pub evict-fits :
      (fuel : ℕ) (cs : Cs p)
      → leb (length cs.table) cs.limit ≡ true
      → evict_entries p fuel cs ≡ some cs
  unfolding evict_entries
  evict-fits zero cs fits = ground (arith, fits)
  evict-fits (suc fuel) cs fits = ground (arith, fits)

  first_entry :
      (cs : Cs p)
      → IsConsistent cs
      → 0 < length cs.table
      → (h : ℕ) × (occurs h (p.handles cs.policy) ≡ 1)
  first_entry cs c some_entry = go cs.table c.once c.same some_entry
    where
      go :
          (es : List Entry)
          → ((i : ℕ) → occurs i (table_handles es) ≤ 1)
          → ((i : ℕ) → occurs i (table_handles es) ≡ occurs i (p.handles cs.policy))
          → 0 < length es
          → (h : ℕ) × (occurs h (p.handles cs.policy) ≡ 1)
      go [] once same some_entry = absurd (omega arith)
      go (e ∷ es) once same some_entry =
          let one = once e.handle in let kept = same e.handle in (e.handle, ground arith)

  -- One round of the loop.
  pub evict_round :
      (cs : Cs p)
      → IsConsistent cs
      → cs.limit < length cs.table
      → (v : ℕ) × (policy : p.State) × (p.evict_one cs.policy ≡ some (v, policy))
        × IsConsistent (record cs { table = erase_entry v cs.table; policy = policy })
        × (length (erase_entry v cs.table) + 1 ≡ length cs.table)
  evict_round cs c over =
      let (h, one) = first_entry cs c (omega arith) in
      let few : ((i : ℕ) → occurs i (p.handles cs.policy) ≤ 1) =
        λ i. omega (arith, c.once i, c.same i) in
      let (v, policy, run, keeps, once, gone) = laws.evict_lem h cs.policy c.keeps few one in
      (
        v,
        policy,
        run,
        IsConsistent-erase cs v policy c keeps gone,
        length-erase_entry v cs.table (omega (arith, c.same v)),
      )

  -- The loop of `evictEntries` ends, with as much fuel as the table has entries: it makes no fault, and
  -- evicts just enough entries for the limit.
  pub evict_entries_lem :
      (fuel : ℕ) (cs : Cs p)
      → IsConsistent cs
      → length cs.table ≤ fuel
      → (cs' : Cs p) × (evict_entries p fuel cs ≡ some cs')
        × IsStore cs'
        × (length cs'.table ≡ min (length cs.table) cs.limit)
        × (cs'.limit ≡ cs.limit)
  unfolding evict_entries
  evict_entries_lem zero cs c h = (
    cs,
    evict-fits zero cs (ground arith),
    record { consistent = c; within = omega arith },
    omega arith,
    refl,
  )
  evict_entries_lem (suc fuel) cs c h = elim (Bool-cases (leb (length cs.table) cs.limit)) [
    | inl fits ↦ (
      cs,
      evict-fits (suc fuel) cs fits,
      record { consistent = c; within = omega tests },
      omega tests,
      refl,
    )
    | inr over ↦
        let (v, policy, run, c', less) = evict_round cs c (ground arith) in
        let (cs', rest, store, len, lim) =
          evict_entries_lem fuel (record cs { table = erase_entry v cs.table; policy = policy }) c'
            (omega arith) in
        (cs', rw (over, run) rest, store, ground arith, lim)
  ]

  -- On a store in step with its policy and within its limit, `setLimit` makes no fault: it evicts
  -- just enough entries for the new limit, the rest of the table stays in step with the policy.
  pub set_limit_lem :
      (n : ℕ) (cs : Cs p)
      → IsStore cs
      → (cs' : Cs p) × (set_limit p n cs ≡ some cs')
        × IsStore cs'
        × (length cs'.table ≡ min (length cs.table) n)
        × (cs'.limit ≡ n)
  unfolding set_limit
  set_limit_lem n cs s =
      evict_entries_lem (length cs.table) (record cs { limit = n })
        (record {
          keeps = s.consistent.keeps;
          same = s.consistent.same;
          once = s.consistent.once;
          unused = s.consistent.unused;
        })
        (omega arith)
