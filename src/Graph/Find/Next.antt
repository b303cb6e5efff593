-- ===== src/Graph/Find/Next.antt =====
-- The order of the find targets, and which one comes next.
use gitglasses.Base.{
  sym, subst, Bool, ==_iff, ◌≢◌, ◌==◌, find_first, ltb→le, ltb→lt, ltb, Option, map, Text,
  Bool-cases, ◌⊎◌, ◌≤◌, ◌<◌, All, List, ℕ, refl, [], ◌∷◌, true, false, none, some, inl, inr, ◌≡◌,
  arith,
}
use gitglasses.Graph.Find.{
  at_row, or_else, next_match, next_find_target, target_of, last_of, last_below, insert_target,
  first_above, FindTarget, FindMatch, find_targets,
}

-- Rows in order.
abbrev pub IsInOrder : List ℕ → Type 0
IsInOrder [] = Unit
IsInOrder (x ∷ xs) = All (λ y. x ≤ y) xs × IsInOrder xs

abbrev pub rows_of : List FindTarget → List ℕ
rows_of = map (λ t. t.row)

insert_target-least :
    (n : ℕ) (t : FindTarget) (us : List FindTarget)
    → n ≤ t.row
    → All (λ y. n ≤ y) (rows_of us)
    → All (λ y. n ≤ y) (rows_of (insert_target t us))
unfolding insert_target
insert_target-least n t [] h a = (h, tt)
insert_target-least n t (u ∷ us) h a = ground (arith, insert_target-least n t us h a.1)

least-weaken : (m n : ℕ) (xs : List ℕ) → m ≤ n → All (λ y. n ≤ y) xs → All (λ y. m ≤ y) xs
least-weaken m n [] h a = tt
least-weaken m n (x ∷ xs) h a = (omega (arith, a.0), least-weaken m n xs h a.1)

insert_target-IsInOrder :
    (t : FindTarget) (us : List FindTarget)
    → IsInOrder (rows_of us)
    → IsInOrder (rows_of (insert_target t us))
unfolding insert_target
insert_target-IsInOrder t [] o = (tt, tt)
insert_target-IsInOrder t (u ∷ us) o = ground (
  arith,
  insert_target-IsInOrder t us o.1,
  insert_target-least u.row t us,
  least-weaken t.row u.row (rows_of us),
)

-- The targets of the matches come in row order.
find_targets-IsInOrder :
    (matches : List FindMatch) (index_of : Text → Option ℕ) (wip_offset : ℕ)
    → IsInOrder (rows_of (find_targets matches index_of wip_offset))
unfolding find_targets
find_targets-IsInOrder [] index_of wip_offset = tt
find_targets-IsInOrder (m ∷ ms) index_of wip_offset =
    insert_target-IsInOrder (target_of index_of wip_offset m) _
      (find_targets-IsInOrder ms index_of wip_offset)

-- `row` is the nearest row after `from`; with none there, the first of all.
abbrev pub IsNext : List ℕ → ℕ → ℕ → Type 0
IsNext rows from row =
    ((from < row) × All (λ y. (y ≤ from) ⊎ (row ≤ y)) rows)
    ⊎ (All (λ y. y ≤ from) rows × All (λ y. row ≤ y) rows)

-- `row` is the nearest row before `from`; with none there, the last of all.
abbrev pub IsPrevious : List ℕ → ℕ → ℕ → Type 0
IsPrevious rows from row =
    ((row < from) × All (λ y. (from ≤ y) ⊎ (y ≤ row)) rows)
    ⊎ (All (λ y. from ≤ y) rows × All (λ y. y ≤ row) rows)

abbrev Among : ℕ → List ℕ → Type 0
Among r [] = ⊥
Among r (x ∷ xs) = (x ≡ r) ⊎ Among r xs

weaken_above : (from r : ℕ) (xs : List ℕ) → All (λ y. r ≤ y) xs → All (λ y. (y ≤ from) ⊎ (r ≤ y)) xs
weaken_above from r [] a = tt
weaken_above from r (x ∷ xs) a = (inr a.0, weaken_above from r xs a.1)

first_above_lem :
    (from : ℕ) (xs : List ℕ)
    → IsInOrder xs
    → ((first_above from xs ≡ none) × All (λ y. y ≤ from) xs)
      ⊎ ((r : ℕ) × (first_above from xs ≡ some r)
          × Among r xs
          × ((from < r) × All (λ y. (y ≤ from) ⊎ (r ≤ y)) xs))
unfolding first_above
first_above_lem from [] o = inl (refl, tt)
first_above_lem from (x ∷ xs) o = elim (Bool-cases (ltb from x)) [
  | inl above ↦
      let h = ltb→lt from x above in
      inr (x, rw above, inl refl, (h, (inr (omega arith), weaken_above from x xs o.0)))
  | inr below ↦
      let h = ltb→le from x below in
      elim (first_above_lem from xs o.1) [
        | inl (e, a) ↦ inl (rw below e, (h, a))
        | inr (r, e, m, (g, a)) ↦ inr (r, rw below e, inr m, (g, (inl h, a)))
      ]
]

all_le_last : (n x : ℕ) (xs : List ℕ) → n ≤ x → IsInOrder (x ∷ xs) → n ≤ last_of x xs
unfolding last_of
all_le_last n x [] h o = h
all_le_last n x (y ∷ ys) h o = all_le_last n y ys (omega (arith, o.0.0)) o.1

le-last_of : (x : ℕ) (xs : List ℕ) → IsInOrder (x ∷ xs) → All (λ y. y ≤ last_of x xs) (x ∷ xs)
unfolding last_of
le-last_of x [] o = (omega arith, tt)
le-last_of x (y ∷ ys) o = (all_le_last x y ys o.0.0 o.1, le-last_of y ys o.1)

Among-last_of : (x : ℕ) (xs : List ℕ) → Among (last_of x xs) (x ∷ xs)
unfolding last_of
Among-last_of x [] = inl refl
Among-last_of x (y ∷ ys) = inr (Among-last_of y ys)

le-Among : (n r : ℕ) (xs : List ℕ) → All (λ y. n ≤ y) xs → Among r xs → n ≤ r
le-Among n r [] a m = absurd m
le-Among n r (x ∷ xs) a (inl e) = omega (arith, a.0)
le-Among n r (x ∷ xs) a (inr m) = le-Among n r xs a.1 m

below-All : (from x : ℕ) (xs : List ℕ) → from ≤ x → All (λ y. x ≤ y) xs → All (λ y. from ≤ y) xs
below-All from x [] h a = tt
below-All from x (y ∷ ys) h a = (omega (arith, a.0), below-All from x ys h a.1)

weaken_below :
    (from r : ℕ) (xs : List ℕ) → All (λ y. from ≤ y) xs → All (λ y. (from ≤ y) ⊎ (y ≤ r)) xs
weaken_below from r [] a = tt
weaken_below from r (x ∷ xs) a = (inl a.0, weaken_below from r xs a.1)

last_below_lem :
    (from : ℕ) (xs : List ℕ)
    → IsInOrder xs
    → ((last_below from xs ≡ none) × All (λ y. from ≤ y) xs)
      ⊎ ((r : ℕ) × (last_below from xs ≡ some r)
          × Among r xs
          × ((r < from) × All (λ y. (from ≤ y) ⊎ (y ≤ r)) xs))
unfolding last_below
last_below_lem from [] o = inl (refl, tt)
last_below_lem from (x ∷ xs) o = elim (last_below_lem from xs o.1) [
  | inr (r, e, m, (g, a)) ↦
      inr (r, rw (e, last_below), inr m, (g, (inr (le-Among x r xs o.0 m), a)))
  | inl (e, a) ↦ elim (Bool-cases (ltb x from)) [
    | inl below ↦ inr (
      x,
      rw (e, last_below, below),
      inl refl,
      (ltb→lt x from below, (inr (omega arith), weaken_below from x xs a)),
    )
    | inr above ↦ inl (rw (e, last_below, above), (ltb→le x from above, a))
  ]
]

next_match_lem :
    (rows : List ℕ) (from : ℕ)
    → IsInOrder rows
    → rows ≢ []
    → ((r : ℕ) × (next_match rows from false ≡ some r) × Among r rows × IsNext rows from r)
      × ((r : ℕ) × (next_match rows from true ≡ some r) × Among r rows × IsPrevious rows from r)
unfolding next_match
next_match_lem [] from o n = absurd (n refl)
next_match_lem (m ∷ ms) from o n = (forwards, backwards)
  where
    forwards :
        (r : ℕ) × (next_match (m ∷ ms) from false ≡ some r)
        × Among r (m ∷ ms)
        × IsNext (m ∷ ms) from r
    forwards = elim (first_above_lem from (m ∷ ms) o) [
      | inl (e, a) ↦ (m, rw (e, or_else), inl refl, inr (a, (omega arith, o.0)))
      | inr (r, e, among, near) ↦ (r, rw (e, or_else), among, inl near)
    ]

    backwards :
        (r : ℕ) × (next_match (m ∷ ms) from true ≡ some r)
        × Among r (m ∷ ms)
        × IsPrevious (m ∷ ms) from r
    backwards = elim (last_below_lem from (m ∷ ms) o) [
      | inl (e, a) ↦ (last_of m ms, rw (e, or_else), Among-last_of m ms, inr (a, le-last_of m ms o))
      | inr (r, e, among, near) ↦ (r, rw (e, or_else), among, inl near)
    ]

find_first-row :
    (r : ℕ) (targets : List FindTarget)
    → Among r (rows_of targets)
    → (t : FindTarget) × (find_first (λ t. t.row == r) targets ≡ some t) × (t.row ≡ r)
find_first-row r [] m = absurd m
find_first-row r (t ∷ ts) m = elim (Bool-cases (t.row == r)) [
  | inl same ↦ (t, rw same, (==_iff t.row r).0 same)
  | inr other ↦
      let (u, e, h) =
        find_first-row r ts
          (elim m [ inl e ↦ absurd (ground (arith, e, other)) | inr rest ↦ rest ]) in
      (u, rw (other, e), h)
]

insert_target-ne-nil : (t : FindTarget) (us : List FindTarget) → rows_of (insert_target t us) ≢ []
unfolding insert_target
insert_target-ne-nil t [] = λ e. cc
insert_target-ne-nil t (u ∷ us) = ground arith

find_targets-ne-nil :
    (matches : List FindMatch) (index_of : Text → Option ℕ) (wip_offset : ℕ)
    → matches ≢ []
    → rows_of (find_targets matches index_of wip_offset) ≢ []
unfolding find_targets
find_targets-ne-nil [] index_of wip_offset n = absurd (n refl)
find_targets-ne-nil (m ∷ ms) index_of wip_offset n =
    insert_target-ne-nil (target_of index_of wip_offset m) (find_targets ms index_of wip_offset)

target_at :
    (targets : List FindTarget) (from : ℕ) (backwards : Bool) (P : ℕ → Type 0) (r : ℕ)
    → next_match (rows_of targets) from backwards ≡ some r
    → Among r (rows_of targets)
    → P r
    → (t : FindTarget) × (next_find_target targets from backwards ≡ some t) × P t.row
unfolding next_find_target
target_at targets from backwards P r e m p =
    let (t, found, row) = find_first-row r targets m in
    (t, rw (e, at_row) found, subst P (sym row) p)

-- Among the targets of any matches there is a next one and a previous one from any row: the nearest
-- target after it, or the first of all where none is after it; the nearest before it, or the last.
pub next_find_target-IsNext :
    (matches : List FindMatch) (index_of : Text → Option ℕ) (wip_offset from : ℕ)
    → matches ≢ []
    → let targets = find_targets matches index_of wip_offset in
      ((t : FindTarget) × (next_find_target targets from false ≡ some t)
        × IsNext (rows_of targets) from t.row)
      × ((t : FindTarget) × (next_find_target targets from true ≡ some t)
          × IsPrevious (rows_of targets) from t.row)
next_find_target-IsNext matches index_of wip_offset from n =
    let targets = find_targets matches index_of wip_offset in
    let rows = rows_of targets in
    let (ahead, back) =
      next_match_lem rows from (find_targets-IsInOrder matches index_of wip_offset)
        (find_targets-ne-nil matches index_of wip_offset n) in
    (
      target_at targets from false (λ r. IsNext rows from r) ahead.0 ahead.1 ahead.2 ahead.3,
      target_at targets from true (λ r. IsPrevious rows from r) back.0 back.1 back.2 back.3,
    )
