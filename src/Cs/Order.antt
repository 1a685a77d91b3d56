-- ===== src/Cs/Order.antt =====
-- The order of the table, a `std::set`.
use Prim.Native.Nat.Ordering.{lt, eq, gt}
use nfd_qo_s.Base.{ℕ, ◌≡◌, refl, ◌⊎◌, inl, inr, List, [], ◌∷◌, arith, All}
use nfd_qo_s.Cs.Entry.{Entry, compare_names, compare_data_with_data}

-- Each entry of the table comes before those after it.
abbrev pub IsOrdered : List Entry → Type 0
IsOrdered [] = Unit
IsOrdered (e ∷ es) = All (λ x. compare_data_with_data e.packet x.packet ≡ lt) es × IsOrdered es

-- A name after another one is after any name between, or that name is after the other one.
pub compare_names-split :
    (a b c : List ℕ) → compare_names a c ≡ gt → (compare_names a b ≡ gt) ⊎ (compare_names b c ≡ gt)
unfolding compare_names
compare_names-split [] b [] h = cc
compare_names-split [] b (z ∷ c) h = cc
compare_names-split (x ∷ a) [] c h = inl refl
compare_names-split (x ∷ a) (y ∷ b) [] h = inr refl
compare_names-split (x ∷ a) (y ∷ b) (z ∷ c) h = ground (arith, compare_names-split a b c)

compare_names-anti : (a b : List ℕ) → compare_names a b ≡ lt → compare_names b a ≡ gt
unfolding compare_names
compare_names-anti [] [] h = cc
compare_names-anti [] (y ∷ b) h = refl
compare_names-anti (x ∷ a) [] h = cc
compare_names-anti (x ∷ a) (y ∷ b) h = ground (arith, compare_names-anti a b)

compare_names-same : (a b : List ℕ) → compare_names a b ≡ eq → a ≡ b
unfolding compare_names
compare_names-same [] [] h = refl
compare_names-same [] (y ∷ b) h = cc
compare_names-same (x ∷ a) [] h = cc
compare_names-same (x ∷ a) (y ∷ b) h = ground (arith, compare_names-same a b)
