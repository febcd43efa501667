-- ===== src/Lifecycle/Members.antt =====
-- Members of a list that one is taken out of.
use che_machine_exec.Common.{ℕ, ◌≡◌, sym, ◌⊎◌, inl, inr, List, [], ◌∷◌, ◌++◌, In}

abbrev pub AreDistinct : List ℕ → Type 0
AreDistinct [] = Unit
AreDistinct (x ∷ xs) = (¬ In x xs) × AreDistinct xs

pub In-around :
    (x id : ℕ) (before behind : List ℕ)
    → In x (before ++ id ∷ behind)
    → (x ≡ id) ⊎ In x (before ++ behind)
In-around x id [] behind h = h
In-around x id (y ∷ before) behind (inl e) = inr (inl e)
In-around x id (y ∷ before) behind (inr h) = elim (In-around x id before behind h) [
  | inl e ↦ inl e
  | inr k ↦ inr (inr k)
]

pub around-In :
    (x id : ℕ) (before behind : List ℕ)
    → (x ≡ id) ⊎ In x (before ++ behind)
    → In x (before ++ id ∷ behind)
around-In x id [] behind h = h
around-In x id (y ∷ before) behind (inl e) = inr (around-In x id before behind (inl e))
around-In x id (y ∷ before) behind (inr (inl e)) = inl e
around-In x id (y ∷ before) behind (inr (inr h)) = inr (around-In x id before behind (inr h))

-- What is taken out of a list of distinct members is no longer in it.
pub AreDistinct-around :
    (id : ℕ) (before behind : List ℕ)
    → AreDistinct (before ++ id ∷ behind)
    → AreDistinct (before ++ behind) × ¬ In id (before ++ behind)
AreDistinct-around id [] behind h = (h.1, h.0)
AreDistinct-around id (y ∷ before) behind h =
    let (rest, out) = AreDistinct-around id before behind h.1 in
    (
      ((λ k. h.0 (around-In y id before behind (inr k))), rest),
      λ k. elim k [ inl e ↦ h.0 (around-In y id before behind (inl (sym e))) | inr l ↦ out l ],
    )
