-- ===== src/Cs/Find/Answers.antt =====
-- The search of the content store ends, and finds a matching entry if there is one.
use mathlib.Core.Path.{subst}
use nfd_qo_s.Base.{
  ℕ, ◌-◌, ◌≤◌, ◌<◌, ◌≡◌, refl, sym, ap, ◌∙◌, ◌⊎◌, inl, inr, Bool, true, false, not, ◌||◌, Option,
  none, some, List, [], ◌∷◌, arith, ◌==◌, if◌then◌else◌, Bool-cases, length, take, All, Any, null,
  length-take, Any-weaken,
}
use nfd_qo_s.Cs.Entry.{Data, CsInterest, Entry, can_satisfy, prefix_query}
use nfd_qo_s.Cs.Policy.{Policy, IsPolicy}
use nfd_qo_s.Cs.Store.{Cs, Names, query_of, from_bound, range_of}
use nfd_qo_s.Cs.Find.Within.{Found, find_leftmost_lem, length-from_bound}
use nfd_qo_s.Cs.Store.Invariant.{table_handles, occurs-range_of, IsStore}
use nfd_qo_s.Cs.Find.{
  find_leftmost, find_rightmost, first_place, before_last, search_table, answer, find_data,
}
use nfd_qo_s.Cs.Find.Bounds.{IsNames, from_bound-before, range_of-under}
use nfd_qo_s.Cs.Order.{IsOrdered}
use nfd_qo_s.Base.Occurs.{occurs}
use nfd_qo_s.Cs.Find.Loop.{AllBefore, find_rightmost_lem}

pub length-range_of :
    (names : Names) (n : List ℕ) (table : List Entry)
    → length (range_of names n table) ≤ length table
length-range_of names n table = omega (
  arith,
  length-take
      (length (from_bound (query_of names n) table)
        - length (if null n then [] else from_bound (query_of names (names.successor n)) table))
      (from_bound (query_of names n) table),
  length-from_bound (query_of names n) table,
)

-- The search of an ordered table, for a name without a digest.
search_table_lem :
    (names : Names) (now : ℕ) (interest : CsInterest) (table : List Entry)
    → IsNames names
    → IsOrdered table
    → query_of names interest.name ≡ prefix_query interest.name
    → (r : Option Entry) × (search_table names now interest table ≡ some r)
      × Found now interest (range_of names interest.name table) r
search_table_lem names now interest table laws o plain =
    let name = interest.name in
    let range = range_of names name table in
    let first = first_place names name table in
    let rightmost =
      find_rightmost (length table) names now interest first (before_last names name table) in
    let leftmost = find_leftmost now interest range in
    let search : Bool → Option (Option Entry) = λ b. if b then rightmost else some leftmost in
    elim (Bool-cases interest.is_rightmost) [
      | inl right ↦
          let place : length (take first table) ≡ first = omega (arith, length-take first table) in
          let before : AllBefore name (take first table) =
            subst (λ q. AllBefore name (take (length table - length (from_bound q table)) table))
              (sym plain) (from_bound-before name table) in
          let (r, run, f) =
            find_rightmost_lem (length table) names now interest (take first table) range before
              (range_of-under names name table laws o plain) (length-range_of names name table) in
          (
            r,
            ap search right
                ∙ ap
                    (λ k.
                      find_rightmost (length table) names now interest k
                        (before_last names name table))
                    (sym place)
                ∙ run,
            f,
          )
      | inr left ↦ (leftmost, ap search left, find_leftmost_lem now interest range)
    ]

occurs-Found :
    (now : ℕ) (interest : CsInterest) (range : List Entry) (e : Entry)
    → Found now interest range (some e)
    → 0 < occurs e.handle (table_handles range)
occurs-Found now interest [] e f = absurd f
occurs-Found now interest (x ∷ xs) e (inl f) = ground (arith, ap (λ y. y.handle) f.0)
occurs-Found now interest (x ∷ xs) e (inr f) = ground (arith, occurs-Found now interest xs e f)

module _ (p : Policy) (laws : IsPolicy p) where
  -- What `find` answers. On a hit: the store serves, an entry of the range satisfies the Interest
  -- and its Data is returned. On a miss: the store does not serve, or no entry of the range
  -- satisfies the Interest.
  abbrev pub Answers : Names → ℕ → CsInterest → Cs p → Option Data → Type 0
  Answers names now interest cs none =
      ((not cs.should_serve || cs.limit == 0) ≡ true)
      ⊎ All (λ x. can_satisfy now interest x ≡ false) (range_of names interest.name cs.table)
  Answers names now interest cs (some d) =
      ((not cs.should_serve || cs.limit == 0) ≡ false)
      × Any (λ x. (x.packet ≡ d) × (can_satisfy now interest x ≡ true))
          (range_of names interest.name cs.table)

  answer_lem :
      (names : Names) (now : ℕ) (interest : CsInterest) (cs : Cs p)
      → IsStore p laws cs
      → (not cs.should_serve || cs.limit == 0) ≡ false
      → (found : Option Entry) → Found now interest (range_of names interest.name cs.table) found
      → (r : Option Data) × (cs' : Cs p) × (answer p found cs ≡ some (r, cs'))
        × Answers names now interest cs r
        × IsStore p laws cs'
        × (cs'.table ≡ cs.table)
  answer_lem names now interest cs s serves none f = (none, cs, refl, inr f, s, refl)
  answer_lem names now interest cs s serves (some e) f =
      let c = s.consistent in
      let range = range_of names interest.name cs.table in
      let inside = occurs-Found now interest range e f in
      let one : occurs e.handle (p.handles cs.policy) ≡ 1 = omega (
        arith,
        inside,
        occurs-range_of e.handle names interest.name cs.table,
        c.same e.handle,
        c.once e.handle,
      ) in
      let (policy, run, keeps, kept) = laws.use_lem e.handle cs.policy c.keeps one in
      (
        some e.packet,
        record cs { policy = policy },
        rw run refl,
        (
          serves,
          Any-weaken (λ x. (x ≡ e) × (can_satisfy now interest x ≡ true))
              (λ x. (x.packet ≡ e.packet) × (can_satisfy now interest x ≡ true)) range
              (λ x h. (ap (λ y. y.packet) h.0, h.1)) f,
        ),
        record {
          consistent = record {
            keeps = keeps;
            same = λ i. c.same i ∙ sym (kept i);
            once = c.once;
            unused = c.unused;
          };
          within = s.within;
        },
        refl,
      )

  -- On a store in step with its policy, with an ordered table, and for a name that does not end in
  -- a digest, `Cs::find` ends without a fault, leftmost or rightmost: the answer is a hit if an
  -- entry between the name and its successor satisfies the Interest and the store serves, and else
  -- a miss. The table stays, and the policy still keeps its entries.
  pub find_data_lem :
      (names : Names) (now : ℕ) (interest : CsInterest) (cs : Cs p)
      → IsStore p laws cs
      → IsNames names
      → IsOrdered cs.table
      → query_of names interest.name ≡ prefix_query interest.name
      → (r : Option Data) × (cs' : Cs p) × (find_data p names now interest cs ≡ some (r, cs'))
        × Answers names now interest cs r
        × IsStore p laws cs'
        × (cs'.table ≡ cs.table)
  unfolding find_data
  find_data_lem names now interest cs s laws_n o plain =
      elim (Bool-cases (not cs.should_serve || cs.limit == 0)) [
        | inl closed ↦ (none, cs, rw closed refl, inl closed, s, refl)
        | inr serves ↦
            let (r, run, f) = search_table_lem names now interest cs.table laws_n o plain in
            let (d, cs', rest, why, store, same) = answer_lem names now interest cs s serves r f in
            (d, cs', rw (serves, run) rest, why, store, same)
      ]
