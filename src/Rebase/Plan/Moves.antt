-- ===== src/Rebase/Plan/Moves.antt =====
-- extension/webviews-src/rebase/rebaseLogic.ts: moving a commit of the plan.
use gitglasses.Base.{
  sym, ◌∙◌, ◌-◌, get_elem?, ap, ◌<◌, length, Option, ◌≤◌, List, ℕ, zero, suc, refl, [], ◌∷◌, none,
  some, ◌≡◌, arith,
}
use gitglasses.Rebase.Plan.{negsuc, pos, ℤ, placed, clamped, removed_at, move, inserted_at}

clamped-le : (last : ℕ) (to : ℤ) → clamped last to ≤ last
unfolding clamped
clamped-le last (pos n) = omega arith
clamped-le last (negsuc n) = omega arith

module _ {ℓ} {A : Type ℓ} where
  get_elem?-inserted_at :
      (target : ℕ) (x : A) (xs : List A)
      → target ≤ length xs
      → get_elem? (inserted_at target x xs) target ≡ some x
  unfolding inserted_at
  get_elem?-inserted_at zero x xs h = refl
  get_elem?-inserted_at (suc target) x [] h = elim h [ ]
  get_elem?-inserted_at (suc target) x (y ∷ xs) h = get_elem?-inserted_at target x xs (omega arith)

  removed_at-inserted_at :
      (target : ℕ) (x : A) (xs : List A)
      → target ≤ length xs
      → removed_at target (inserted_at target x xs) ≡ xs
  unfolding inserted_at removed_at
  removed_at-inserted_at zero x xs h = refl
  removed_at-inserted_at (suc target) x [] h = elim h [ ]
  removed_at-inserted_at (suc target) x (y ∷ xs) h =
      ap (◌∷◌ y) (removed_at-inserted_at target x xs (omega arith))

  length-removed_at :
      (index : ℕ) (xs : List A)
      → suc index ≤ length xs
      → length (removed_at index xs) ≡ length xs - 1
  unfolding removed_at
  length-removed_at index [] h = elim h [ ]
  length-removed_at zero (x ∷ xs) h = omega arith
  length-removed_at (suc index) (x ∷ xs) h = omega (arith, length-removed_at index xs)

  get_elem?-some :
      (xs : List A) (index : ℕ) → suc index ≤ length xs → (x : A) × (get_elem? xs index ≡ some x)
  get_elem?-some [] index h = elim h [ ]
  get_elem?-some (x ∷ xs) zero h = (x, refl)
  get_elem?-some (x ∷ xs) (suc index) h = get_elem?-some xs index (omega arith)

  placed_lem :
      (plan : List A) (o : Option A) (x : A) (index target : ℕ)
      → o ≡ some x
      → suc index ≤ length plan
      → target ≤ length plan - 1
      → (get_elem? (placed o index target plan) target ≡ some x)
        × (removed_at target (placed o index target plan) ≡ removed_at index plan)
  unfolding placed
  placed_lem plan none x index target e h k = cc
  placed_lem plan (some y) x index target e h k =
      let b : target ≤ length (removed_at index plan) =
        omega (arith, length-removed_at index plan h) in
      (
        get_elem?-inserted_at target y (removed_at index plan) b ∙ e,
        removed_at-inserted_at target y (removed_at index plan) b,
      )

  -- Moving the entry at an index within the plan puts that entry at the target clamped to the plan's
  -- positions, and the other entries keep their order: without the moved entry, the plan is the same.
  pub move_lem :
      (plan : List A) (index : ℕ) (to : ℤ)
      → index < length plan
      → let target = clamped (length plan - 1) to in
        (get_elem? (move plan (pos index) to) target ≡ get_elem? plan index)
        × (removed_at target (move plan (pos index) to) ≡ removed_at index plan)
  unfolding move
  move_lem plan index to h =
      let (x, e) = get_elem?-some plan index (omega arith) in
      let (a, b) =
        placed_lem plan (get_elem? plan index) x index (clamped (length plan - 1) to) e
          (omega arith) (clamped-le (length plan - 1) to) in
      (a ∙ sym e, b)
