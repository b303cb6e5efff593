-- ===== src/Ai/Cap.antt =====
-- extension/src/ai/contextBuilder.ts: the largest share of a budget that every file may have, where the biggest give first.
-- `prefix` never passes the budget, so their difference is the source's.
use gitglasses.Base.{
  ltb, leb, if◌then◌else◌, List, ℕ, suc, [], ◌∷◌, ◌+◌, ◌*◌, ◌/◌, ◌-◌, ◌≤◌, ◌<◌, min, length, Option,
  none, some, arith, All, ◌⊎◌, inl, inr, ◌≡◌, refl, Bool-cases, leb→le, leb→lt, ltb→lt, ltb→le,
  div-mul-le, lt-div-suc, le_of_mul_lt,
}
pub mod Largest

-- `Number.MAX_SAFE_INTEGER`
abbrev pub max_safe_integer : ℕ
max_safe_integer = 9007199254740991

abbrev pub min_patch_chars : ℕ
min_patch_chars = 160

abbrev pub sum : List ℕ → ℕ
sum [] = 0
sum (x ∷ xs) = x + sum xs

insert_length : ℕ → List ℕ → List ℕ
insert_length x [] = x ∷ []
insert_length x (y ∷ ys) = let rest = insert_length x ys in if leb x y then x ∷ y ∷ ys else y ∷ rest

sort_lengths : List ℕ → List ℕ
unfolding insert_length
sort_lengths [] = []
sort_lengths (x ∷ xs) = insert_length x (sort_lengths xs)

equal_share : (budget prefix : ℕ) → List ℕ → Option ℕ
equal_share budget prefix [] = some max_safe_integer
equal_share budget prefix (x ∷ xs) =
    let remaining_files = length (x ∷ xs) in
    let cap = (budget - prefix) / remaining_files in
    let next = equal_share budget (prefix + x) xs in
    if ltb budget (prefix + remaining_files * x)
    then (if leb min_patch_chars cap then some cap else none)
    else next

unfoldable pub biggest_first_cap : (lengths : List ℕ) (budget : ℕ) → Option ℕ
unfolding equal_share sort_lengths
biggest_first_cap lengths budget =
    if leb (sum lengths) budget
    then some max_safe_integer
    else equal_share budget 0 (sort_lengths lengths)
