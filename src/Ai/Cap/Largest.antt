-- ===== src/Ai/Cap/Largest.antt =====
-- extension/src/ai/contextBuilder.ts: the share is the largest under which the files fit.
use gitglasses.Base.{
  ltb, leb, if◌then◌else◌, List, ℕ, suc, [], ◌∷◌, ◌+◌, ◌*◌, ◌/◌, ◌-◌, ◌≤◌, ◌<◌, min, length, Option,
  none, some, arith, All, ◌⊎◌, inl, inr, ◌≡◌, refl, Bool-cases, leb→le, leb→lt, ltb→lt, ltb→le,
  div-mul-le, lt-div-suc, le_of_mul_lt,
}
use gitglasses.Ai.Cap.{
  biggest_first_cap, max_safe_integer, min_patch_chars, sum, insert_length, sort_lengths,
  equal_share,
}

-- What the files take of the budget under a cap.
abbrev pub capped : ℕ → List ℕ → ℕ
capped cap [] = 0
capped cap (x ∷ xs) = min x cap + capped cap xs

abbrev Sorted : List ℕ → Type 0
Sorted [] = Unit
Sorted (x ∷ xs) = All (λ y. x ≤ y) xs × Sorted xs

insert_length-All :
    (z x : ℕ) (xs : List ℕ) → z ≤ x → All (λ y. z ≤ y) xs → All (λ y. z ≤ y) (insert_length x xs)
unfolding insert_length
insert_length-All z x [] h a = (h, tt)
insert_length-All z x (y ∷ ys) h a = ground (arith, insert_length-All z x ys h a.1)

All-weaken : (z x : ℕ) (xs : List ℕ) → z ≤ x → All (λ y. x ≤ y) xs → All (λ y. z ≤ y) xs
All-weaken z x [] h a = tt
All-weaken z x (y ∷ ys) h a = (omega arith, All-weaken z x ys h a.1)

insert_length-Sorted : (x : ℕ) (xs : List ℕ) → Sorted xs → Sorted (insert_length x xs)
unfolding insert_length
insert_length-Sorted x [] s = (tt, tt)
insert_length-Sorted x (y ∷ ys) s = elim (Bool-cases (leb x y)) [
  | inl e ↦ let le = leb→le x y e in rw e (((le, All-weaken x y ys le s.0)), s)
  | inr e ↦
      rw e
        (insert_length-All y x ys (omega (arith, leb→lt x y e)) s.0, insert_length-Sorted x ys s.1)
]

sort_lengths-Sorted : (xs : List ℕ) → Sorted (sort_lengths xs)
unfolding sort_lengths
sort_lengths-Sorted [] = tt
sort_lengths-Sorted (x ∷ xs) = insert_length-Sorted x (sort_lengths xs) (sort_lengths-Sorted xs)

capped-insert_length :
    (cap x : ℕ) (xs : List ℕ) → capped cap (insert_length x xs) ≡ min x cap + capped cap xs
unfolding insert_length
capped-insert_length cap x [] = refl
capped-insert_length cap x (y ∷ ys) = ground (arith, capped-insert_length cap x ys)

capped-sort_lengths : (cap : ℕ) (xs : List ℕ) → capped cap (sort_lengths xs) ≡ capped cap xs
unfolding sort_lengths
capped-sort_lengths cap [] = refl
capped-sort_lengths cap (x ∷ xs) =
    rw (capped-insert_length cap x (sort_lengths xs)) (rw (capped-sort_lengths cap xs) refl)

sum-insert_length : (x : ℕ) (xs : List ℕ) → sum (insert_length x xs) ≡ x + sum xs
unfolding insert_length
sum-insert_length x [] = refl
sum-insert_length x (y ∷ ys) = ground (arith, sum-insert_length x ys)

sum-sort_lengths : (xs : List ℕ) → sum (sort_lengths xs) ≡ sum xs
unfolding sort_lengths
sum-sort_lengths [] = refl
sum-sort_lengths (x ∷ xs) =
    rw (sum-insert_length x (sort_lengths xs)) (rw (sum-sort_lengths xs) refl)

pub capped-le-sum : (cap : ℕ) (xs : List ℕ) → capped cap xs ≤ sum xs
capped-le-sum cap [] = omega arith
capped-le-sum cap (x ∷ xs) = omega (arith, capped-le-sum cap xs)

pub capped_mono : (c d : ℕ) (xs : List ℕ) → c ≤ d → capped c xs ≤ capped d xs
capped_mono c d [] h = omega arith
capped_mono c d (x ∷ xs) h = omega (arith, capped_mono c d xs h)

capped-le-length : (cap : ℕ) (xs : List ℕ) → capped cap xs ≤ length xs * cap
capped-le-length cap [] = omega arith
capped-le-length cap (x ∷ xs) = grind (arith, capped-le-length cap xs)

length-le-capped : (cap : ℕ) (xs : List ℕ) → All (λ y. cap ≤ y) xs → length xs * cap ≤ capped cap xs
length-le-capped cap [] a = omega arith
length-le-capped cap (x ∷ xs) a = grind (arith, length-le-capped cap xs a.1)

-- `cap` is the largest share under which the files fit into what the prefix leaves.
abbrev IsLargest : (budget prefix : ℕ) → List ℕ → ℕ → Type 0
IsLargest budget prefix xs cap =
    (prefix + capped cap xs ≤ budget) × (budget < prefix + capped (suc cap) xs)

share-IsLargest :
    (budget prefix : ℕ) (x : ℕ) (xs : List ℕ)
    → prefix ≤ budget
    → budget < prefix + length (x ∷ xs) * x
    → Sorted (x ∷ xs)
    → IsLargest budget prefix (x ∷ xs) ((budget - prefix) / length (x ∷ xs))
share-IsLargest budget prefix x xs below over s =
    let n = length (x ∷ xs) in
    let cap = (budget - prefix) / n in
    let upper : cap * n ≤ budget - prefix = div-mul-le (budget - prefix) n in
    let lower : budget - prefix < (cap + 1) * n = lt-div-suc (budget - prefix) n (omega arith) in
    let small : cap * n < x * n = grind (arith, upper, over, below) in
    let fits : cap < x = grind (arith, small) in
    let least : n * suc cap ≤ capped (suc cap) (x ∷ xs) =
      length-le-capped (suc cap) (x ∷ xs)
        (omega arith, All-weaken (suc cap) x xs (omega arith) s.0) in
    (grind (arith, capped-le-length cap (x ∷ xs)), grind (arith, least, lower))

equal_share-IsLargest :
    (budget prefix m : ℕ) (xs : List ℕ)
    → prefix + length xs * m ≤ budget
    → budget < prefix + sum xs
    → All (λ y. m ≤ y) xs
    → Sorted xs
    → (cap : ℕ) × (m ≤ cap)
      × IsLargest budget prefix xs cap
      × (equal_share budget prefix xs ≡ (if leb min_patch_chars cap then some cap else none))
unfolding equal_share
equal_share-IsLargest budget prefix m [] room over a s = absurd (omega (arith, room, over))
equal_share-IsLargest budget prefix m (x ∷ xs) room over a s =
    let n = length (x ∷ xs) in
    elim (Bool-cases (ltb budget (prefix + n * x))) [
      | inl e ↦
          let past = ltb→lt budget (prefix + n * x) e in
          let cap = (budget - prefix) / n in
          let lower : budget - prefix < (cap + 1) * n =
            lt-div-suc (budget - prefix) n (omega arith) in
          let least : m ≤ cap = le_of_mul_lt m cap n (grind (arith, room, lower)) in
          (cap, least, share-IsLargest budget prefix x xs (omega (arith, room)) past s, rw e refl)
      | inr e ↦
          let room' : prefix + x + length xs * x ≤ budget =
            grind (arith, ltb→le budget (prefix + n * x) e) in
          let (cap, least, largest, is) =
            equal_share-IsLargest budget (prefix + x) x xs room' (omega (arith, over)) s.0 s.1 in
          (
            cap,
            omega (arith, least, a.0),
            (omega (arith, least, largest.0), omega (arith, least, largest.1)),
            rw e is,
          )
    ]

-- What a share is worth: everything fits; or it is the largest that is not too little; or too little is too much already.
abbrev pub IsCap : (lengths : List ℕ) (budget : ℕ) → Option ℕ → Type 0
IsCap lengths budget none = budget < capped min_patch_chars lengths
IsCap lengths budget (some cap) =
    (sum lengths ≤ budget × (cap ≡ max_safe_integer))
    ⊎ ((min_patch_chars ≤ cap)
        × (capped cap lengths ≤ budget)
        × (budget < capped (suc cap) lengths))

All-trivial : (xs : List ℕ) → All (λ y. 0 ≤ y) xs
All-trivial [] = tt
All-trivial (x ∷ xs) = (omega arith, All-trivial xs)

-- The share is the largest under which all the files fit, and there is none just when they do not fit under 160 characters
-- each.
pub biggest_first_cap-IsCap :
    (lengths : List ℕ) (budget : ℕ) → IsCap lengths budget (biggest_first_cap lengths budget)
unfolding biggest_first_cap
biggest_first_cap-IsCap lengths budget = elim (Bool-cases (leb (sum lengths) budget)) [
  | inl e ↦ rw e (inl (leb→le (sum lengths) budget e, refl))
  | inr e ↦
      let sorted = sort_lengths lengths in
      let over : budget < 0 + sum sorted =
        omega (arith, sum-sort_lengths lengths, leb→lt (sum lengths) budget e) in
      let (cap, least, largest, is) =
        equal_share-IsLargest budget 0 0 sorted (omega arith) over (All-trivial sorted)
          (sort_lengths-Sorted lengths) in
      let fits : capped cap lengths ≤ budget =
        omega (arith, largest.0, capped-sort_lengths cap lengths) in
      let past : budget < capped (suc cap) lengths =
        omega (arith, largest.1, capped-sort_lengths (suc cap) lengths) in
      rw e (
        rw is (elim (Bool-cases (leb min_patch_chars cap)) [
          | inl ok ↦ rw ok (inr (leb→le min_patch_chars cap ok, fits, past))
          | inr few ↦ rw few (
              omega (
                arith,
                past,
                capped_mono (suc cap) min_patch_chars lengths (leb→lt min_patch_chars cap few),
              ))
        ]))
]
