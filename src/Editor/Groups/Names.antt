-- ===== src/Editor/Groups/Names.antt =====
-- extension/src/groups/groupsLogic.ts: the search for a free group name ends.
use gitglasses.Base.{
  if◌then◌else◌, ◌+◌, text_eq_iff, ◌⊎◌, ◌&&◌, text_eq, codes, Bool-cases, ◌≤◌, ◌<◌, length, ap, ◌∙◌,
  Bool, sym, List, Text, ℕ, zero, suc, refl, [], ◌∷◌, true, false, some, inl, inr, ◌++◌, ◌≡◌, arith,
}
use gitglasses.Base.Decimal.{number_of, number_of-decimal, decimal}
use gitglasses.Base.Sets.{has-delete, delete, has}
use gitglasses.Editor.Groups.{unique_group_name, next_free, candidate}

module _ (name : Text) where
  all_taken : ℕ → ℕ → List Text → Bool
  all_taken zero n taken = true
  all_taken (suc fuel) n taken = has (candidate name n) taken && all_taken fuel (suc n) taken

append-inj : (xs ys zs : Text) → xs ++ ys ≡ xs ++ zs → ys ≡ zs
append-inj [] ys zs h = h
append-inj (x ∷ xs) ys zs h = append-inj xs ys zs (ground arith)

snoc-inj : (xs ys : Text) (c : ℕ) → xs ++ c ∷ [] ≡ ys ++ c ∷ [] → xs ≡ ys
snoc-inj [] [] c h = refl
snoc-inj [] (y ∷ []) c h = cc
snoc-inj [] (y ∷ z ∷ ys) c h = cc
snoc-inj (x ∷ []) [] c h = cc
snoc-inj (x ∷ z ∷ xs) [] c h = cc
snoc-inj (x ∷ xs) (y ∷ ys) c h = ground (arith, snoc-inj xs ys c)

decimal-inj : (m n : ℕ) → decimal m ≡ decimal n → m ≡ n
decimal-inj m n h = sym (number_of-decimal m) ∙ ap (number_of 0) h ∙ number_of-decimal n

candidate-inj : (name : Text) (m n : ℕ) → candidate name m ≡ candidate name n → m ≡ n
unfolding candidate
candidate-inj name m n h = decimal-inj m n (
    append-inj (name ++ codes " (") (decimal m) (decimal n)
      (snoc-inj (name ++ codes " (" ++ decimal m) (name ++ codes " (" ++ decimal n) 41 h))

other_candidate :
    (name : Text) (m n : ℕ) → m < n → text_eq (candidate name m) (candidate name n) ≡ false
other_candidate name m n h = elim (Bool-cases (text_eq (candidate name m) (candidate name n))) [
  | inl e ↦ absurd (
      omega
        (arith, candidate-inj name m n ((text_eq_iff (candidate name m) (candidate name n)).0 e)))
  | inr e ↦ e
]

all_taken-delete :
    (name : Text) (k fuel n : ℕ) (taken : List Text)
    → k < n
    → all_taken name fuel n taken ≡ true
    → all_taken name fuel n (delete (candidate name k) taken) ≡ true
unfolding all_taken
all_taken-delete name k zero n taken h a = refl
all_taken-delete name k (suc fuel) n taken h a = ground (
  arith,
  has-delete (candidate name k) (candidate name n) taken,
  other_candidate name k n h,
  all_taken-delete name k fuel (suc n) taken (omega arith),
)

length-delete :
    (t : Text) (set : List Text) → length (delete t set) + (if has t set then 1 else 0) ≤ length set
length-delete t [] = omega arith
length-delete t (s ∷ set) = ground (arith, length-delete t set)

-- Names that are all taken, each another, are no more than the names there are.
all_taken-le :
    (name : Text) (fuel n : ℕ) (taken : List Text)
    → all_taken name fuel n taken ≡ true
    → fuel ≤ length taken
unfolding all_taken
all_taken-le name zero n taken a = omega arith
all_taken-le name (suc fuel) n taken a =
    let rest =
      all_taken-le name fuel (suc n) (delete (candidate name n) taken)
        (all_taken-delete name n fuel (suc n) taken (omega arith) (ground arith)) in
    ground (arith, rest, length-delete (candidate name n) taken)

-- The search finds a free name, or all that it tried are taken.
next_free-cases :
    (name : Text) (fuel n : ℕ) (taken : List Text)
    → (all_taken name fuel n taken ≡ true)
      ⊎ ((u : Text) × (next_free fuel n name taken ≡ some u) × (has u taken ≡ false))
unfolding next_free all_taken
next_free-cases name zero n taken = inl refl
next_free-cases name (suc fuel) n taken = elim (Bool-cases (has (candidate name n) taken)) [
  | inl e ↦ elim (next_free-cases name fuel (suc n) taken) [
    | inl a ↦ inl (rw e a)
    | inr (u, f, g) ↦ inr (u, (rw e f), g)
  ]
  | inr e ↦ inr (candidate name n, (rw e refl), e)
]

-- A group always gets a name, and one that no other group has: the search ends within as many rounds
-- as there are names, and one more.
pub unique_group_name-free :
    (name : Text) (existing : List Text)
    → (u : Text) × (unique_group_name name existing ≡ some u) × (has u existing ≡ false)
unfolding unique_group_name
unique_group_name-free name existing = elim (Bool-cases (has name existing)) [
  | inl e ↦ elim (next_free-cases name (suc (length existing)) 2 existing) [
    | inl a ↦ absurd (omega (arith, all_taken-le name (suc (length existing)) 2 existing a))
    | inr (u, f, g) ↦ (u, (rw e f), g)
  ]
  | inr e ↦ (name, (rw e refl), e)
]
