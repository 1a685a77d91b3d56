-- ===== src/Table/Records.antt =====
-- Collections of records with a face each: the linear searches over the in-records and out-records
-- of a PIT entry (daemon/table/pit-entry.cpp). A face, which the code compares by address, is a
-- number.
use mathlib.Core.Option
use mathlib.Core.Path.{subst}
use nfd_qo_s.Base.{
  ℕ, ◌≡◌, refl, ◌≢◌, inl, inr, Option, none, some, List, [], ◌∷◌, arith, ◌==◌, if◌then◌else◌,
  Bool-cases, Option-cases, All,
}

abbrev pub HasOnePerFace {ℓ} : {A : Type ℓ} → (A → ℕ) → List A → Type ℓ
HasOnePerFace face_of [] = Unit
HasOnePerFace face_of (r ∷ rs) = All (λ s. face_of s ≢ face_of r) rs × HasOnePerFace face_of rs

module _ {ℓ} {A : Type ℓ} (face_of : A → ℕ) where
  -- `std::find_if` for the face
  unfoldable pub find_record : ℕ → List A → Option A
  find_record face [] = none
  find_record face (r ∷ rs) = if face_of r == face then some r else find_record face rs

  pub update_first : ℕ → (A → A) → List A → List A
  update_first face update [] = []
  update_first face update (r ∷ rs) =
      let rest = update_first face update rs in
      if face_of r == face then update r ∷ rs else r ∷ rest

  -- The record of the face, made at the front if there is none, is updated.
  pub insert_or_update : ℕ → A → (A → A) → List A → List A
  unfolding update_first
  insert_or_update face made update rs = elim (find_record face rs) [
    | none ↦ update made ∷ rs
    | some r ↦ update_first face update rs
  ]

  pub erase_record : ℕ → List A → List A
  erase_record face [] = []
  erase_record face (r ∷ rs) =
      let rest = erase_record face rs in if face_of r == face then rs else r ∷ rest

  pub find_none :
      (face : ℕ) (rs : List A) → All (λ s. face_of s ≢ face) rs → find_record face rs ≡ none
  unfolding find_record
  find_none face [] h = refl
  find_none face (r ∷ rs) h = ground (arith, find_none face rs h.1)

  pub All-of_find :
      (face : ℕ) (rs : List A) → find_record face rs ≡ none → All (λ s. face_of s ≢ face) rs
  unfolding find_record
  All-of_find face [] h = tt
  All-of_find face (r ∷ rs) h = elim (Bool-cases (face_of r == face)) [
    | inl same ↦ absurd (ground arith)
    | inr other ↦ (ground arith, All-of_find face rs (ground arith))
  ]

  pub All-erase_record :
      (P : A → Type 0) (face : ℕ) (rs : List A) → All P rs → All P (erase_record face rs)
  unfolding erase_record
  All-erase_record P face [] h = tt
  All-erase_record P face (r ∷ rs) h = elim (Bool-cases (face_of r == face)) [
    | inl same ↦ rw same h.1
    | inr other ↦ rw other (h.0, All-erase_record P face rs h.1)
  ]

  pub find-erase_other :
      (face g : ℕ) (rs : List A)
      → g ≢ face
      → find_record g (erase_record face rs) ≡ find_record g rs
  unfolding find_record erase_record
  find-erase_other face g [] h = refl
  find-erase_other face g (r ∷ rs) h = ground (arith, find-erase_other face g rs h)

  pub HasOnePerFace-erase_record :
      (face : ℕ) (rs : List A)
      → HasOnePerFace face_of rs
      → HasOnePerFace face_of (erase_record face rs)
  unfolding erase_record
  HasOnePerFace-erase_record face [] h = tt
  HasOnePerFace-erase_record face (r ∷ rs) h = elim (Bool-cases (face_of r == face)) [
    | inl same ↦ rw same h.1
    | inr other ↦ rw other (All-erase_record _ face rs h.0, HasOnePerFace-erase_record face rs h.1)
  ]

  pub find-erase_same :
      (face : ℕ) (rs : List A)
      → HasOnePerFace face_of rs
      → find_record face (erase_record face rs) ≡ none
  unfolding find_record erase_record
  find-erase_same face [] h = refl
  find-erase_same face (r ∷ rs) h = elim (Bool-cases (face_of r == face)) [
    | inl same ↦
        let e : face_of r ≡ face = ground arith in rw same (find_none face rs (rw (← e) h.0))
    | inr other ↦ rw (other, other) (find-erase_same face rs h.1)
  ]

  pub All-find_record {κ} :
      (P : A → Type κ) (face : ℕ) (rs : List A) (r : A)
      → All P rs
      → find_record face rs ≡ some r
      → P r
  unfolding find_record
  All-find_record P face [] r h e = cc
  All-find_record P face (s ∷ rs) r h e = elim (Bool-cases (face_of s == face)) [
    | inl same ↦ let e' : s ≡ r = ground (arith, e) in subst P e' h.0
    | inr other ↦ All-find_record P face rs r h.1 (ground (arith, e))
  ]

  pub face_of_found :
      (face : ℕ) (made : A) (rs : List A)
      → face_of made ≡ face
      → face_of (Option.get_or (find_record face rs) made) ≡ face
  unfolding find_record
  face_of_found face made [] h = h
  face_of_found face made (r ∷ rs) h = ground (arith, face_of_found face made rs h)

  module _ (update : A → A) (kept : (r : A) → face_of (update r) ≡ face_of r) where
    pub find-update_first :
        (face : ℕ) (rs : List A) (r : A)
        → find_record face rs ≡ some r
        → find_record face (update_first face update rs) ≡ some (update r)
    unfolding find_record update_first
    find-update_first face [] r h = cc
    find-update_first face (s ∷ rs) r h = ground (arith, kept s, find-update_first face rs r)

    find-update_other :
        (face g : ℕ) (rs : List A)
        → g ≢ face
        → find_record g (update_first face update rs) ≡ find_record g rs
    unfolding find_record update_first
    find-update_other face g [] h = refl
    find-update_other face g (s ∷ rs) h = ground (arith, kept s, find-update_other face g rs h)

    All-update_first :
        (other face : ℕ) (rs : List A)
        → All (λ s. face_of s ≢ other) rs
        → All (λ s. face_of s ≢ other) (update_first face update rs)
    unfolding update_first
    All-update_first other face [] h = tt
    All-update_first other face (s ∷ rs) h = elim (Bool-cases (face_of s == face)) [
      | inl same ↦ rw same (rw (kept s) h.0, h.1)
      | inr differ ↦ rw differ (h.0, All-update_first other face rs h.1)
    ]

    HasOnePerFace-update_first :
        (face : ℕ) (rs : List A)
        → HasOnePerFace face_of rs
        → HasOnePerFace face_of (update_first face update rs)
    unfolding update_first
    HasOnePerFace-update_first face [] h = tt
    HasOnePerFace-update_first face (s ∷ rs) h = elim (Bool-cases (face_of s == face)) [
      | inl same ↦ rw (same, kept s) h
      | inr differ ↦
          rw differ
            (All-update_first (face_of s) face rs h.0, HasOnePerFace-update_first face rs h.1)
    ]

    module _ (face : ℕ) (made : A) (made_face : face_of made ≡ face) (rs : List A) where
      abbrev inserted : List A
      inserted = insert_or_update face made update rs

      insert-new : find_record face rs ≡ none → inserted ≡ update made ∷ rs
      unfolding insert_or_update
      insert-new h = ground (arith, h)

      insert-old : (r : A) → find_record face rs ≡ some r → inserted ≡ update_first face update rs
      unfolding insert_or_update
      insert-old r h = ground (arith, h)

      pub find-insert_same :
          find_record face inserted ≡ some (update (Option.get_or (find_record face rs) made))
      unfolding find_record
      find-insert_same = elim (Option-cases (find_record face rs)) [
        | inl new ↦ rw (insert-new new, new) (ground (arith, kept made, made_face))
        | inr (r, there) ↦ rw (insert-old r there, there) (find-update_first face rs r there)
      ]

      pub find-insert_other : (g : ℕ) → g ≢ face → find_record g inserted ≡ find_record g rs
      unfolding find_record
      find-insert_other g h = elim (Option-cases (find_record face rs)) [
        | inl new ↦ rw (insert-new new) (ground (arith, kept made, made_face))
        | inr (r, there) ↦ rw (insert-old r there) (find-update_other face g rs h)
      ]

      pub HasOnePerFace-insert : HasOnePerFace face_of rs → HasOnePerFace face_of inserted
      HasOnePerFace-insert h = elim (Option-cases (find_record face rs)) [
        | inl new ↦ rw (insert-new new, kept made, made_face) (All-of_find face rs new, h)
        | inr (r, there) ↦ rw (insert-old r there) (HasOnePerFace-update_first face rs h)
      ]
