-- ===== src/Reviews/Suggest/Hunks.antt =====
-- extension/src/reviews/suggestLogic.ts: the hunk, read as a unified diff, replaces the lines and nothing else.
use gitglasses.Base.{
  Bool, true, false, ◌||◌, ◌==◌, if◌then◌else◌, List, Text, ℕ, zero, suc, [], ◌∷◌, ◌++◌, ◌+◌, ◌-◌,
  ◌≤◌, ◌≡◌, refl, sym, ap, ◌∙◌, arith, length, take, drop, Bool-cases, inl, inr, append_assoc,
  append-nil, length-take, length-drop,
}
use gitglasses.Reviews.Suggest.{slice, marked, note_if}

-- The lines of a body that are on one side of the diff: those of the context, and those with the mark of the side.
abbrev pub side : ℕ → List Text → List Text
side mark [] = []
side mark ([] ∷ body) = side mark body
side mark ((c ∷ line) ∷ body) =
    let rest = side mark body in if c == 0x20 || c == mark then line ∷ rest else rest

abbrev pub old_side : List Text → List Text
old_side = side 0x2d

abbrev pub new_side : List Text → List Text
new_side = side 0x2b

side-append : (mark : ℕ) (xs ys : List Text) → side mark (xs ++ ys) ≡ side mark xs ++ side mark ys
side-append mark [] ys = refl
side-append mark ([] ∷ xs) ys = side-append mark xs ys
side-append mark ((c ∷ line) ∷ xs) ys = elim (Bool-cases (c == 0x20 || c == mark)) [
  | inl e ↦ rw e (ap (◌∷◌ line) (side-append mark xs ys))
  | inr e ↦ rw e (side-append mark xs ys)
]

side-marked :
    (mark c : ℕ) (lines : List Text)
    → (c == 0x20 || c == mark) ≡ true
    → side mark (marked c lines) ≡ lines
side-marked mark c [] h = refl
side-marked mark c (line ∷ lines) h = rw h (ap (◌∷◌ line) (side-marked mark c lines h))

side-others :
    (mark c : ℕ) (lines : List Text)
    → (c == 0x20 || c == mark) ≡ false
    → side mark (marked c lines) ≡ []
side-others mark c [] h = refl
side-others mark c (line ∷ lines) h = rw h (side-others mark c lines h)

side-note_if : (mark : ℕ) (noted : Bool) → (0x5c == mark) ≡ false → side mark (note_if noted) ≡ []
side-note_if mark true h = rw h refl
side-note_if mark false h = refl

module _ (before removed added after : List Text) (first second third : Bool) where
  abbrev pub body : List Text
  body =
      marked 0x20 before
      ++ marked 0x2d removed
      ++ note_if first
      ++ marked 0x2b added
      ++ note_if second
      ++ marked 0x20 after
      ++ note_if third

  -- A side of the body is that side of each of its parts.
  side-body :
      (mark : ℕ)
      → side mark body
        ≡ side mark (marked 0x20 before)
          ++ side mark (marked 0x2d removed)
          ++ side mark (note_if first)
          ++ side mark (marked 0x2b added)
          ++ side mark (note_if second)
          ++ side mark (marked 0x20 after)
          ++ side mark (note_if third)
  side-body mark =
      parts (marked 0x20 before) (marked 0x2d removed) (note_if first) (marked 0x2b added)
        (note_if second) (marked 0x20 after) (note_if third)
    where
      parts :
          (p q r s t u v : List Text)
          → side mark (p ++ q ++ r ++ s ++ t ++ u ++ v)
            ≡ side mark p
              ++ side mark q
              ++ side mark r
              ++ side mark s
              ++ side mark t
              ++ side mark u
              ++ side mark v
      parts p q r s t u v = rw (side-append mark (p ++ q ++ r ++ s ++ t ++ u) v) (
          rw (side-append mark (p ++ q ++ r ++ s ++ t) u) (
            rw (side-append mark (p ++ q ++ r ++ s) t) (
              rw (side-append mark (p ++ q ++ r) s)
                (rw (side-append mark (p ++ q) r) (rw (side-append mark p q) refl)))))

  pub old_side-body : old_side body ≡ before ++ removed ++ after
  old_side-body = rw (side-body 0x2d) (
      rw (side-marked 0x2d 0x20 before refl) (
        rw (side-marked 0x2d 0x2d removed refl) (
          rw (side-others 0x2d 0x2b added refl) (
            rw (side-marked 0x2d 0x20 after refl) (
              rw
                (
                  side-note_if 0x2d first refl,
                  side-note_if 0x2d second refl,
                  side-note_if 0x2d third refl,
                )
                (simp append-nil))))))

  pub new_side-body : new_side body ≡ before ++ added ++ after
  new_side-body = rw (side-body 0x2b) (
      rw (side-marked 0x2b 0x20 before refl) (
        rw (side-others 0x2b 0x2d removed refl) (
          rw (side-marked 0x2b 0x2b added refl) (
            rw (side-marked 0x2b 0x20 after refl) (
              rw
                (
                  side-note_if 0x2b first refl,
                  side-note_if 0x2b second refl,
                  side-note_if 0x2b third refl,
                )
                (simp append-nil))))))

take-nil : (n : ℕ) → take {A = Text} n [] ≡ []
take-nil zero = refl
take-nil (suc n) = refl

drop-nil : (n : ℕ) → drop {A = Text} n [] ≡ []
drop-nil zero = refl
drop-nil (suc n) = refl

take-add : (m n : ℕ) (xs : List Text) → take m xs ++ take n (drop m xs) ≡ take (m + n) xs
take-add zero n xs = ap (λ k. take k xs) (omega arith)
take-add (suc m) n [] = rw (take-nil n) (rw (take-nil (suc m + n)) refl)
take-add (suc m) n (x ∷ xs) =
    let e : suc m + n ≡ suc (m + n) = omega arith in rw e (ap (◌∷◌ x) (take-add m n xs))

drop-drop : (m n : ℕ) (xs : List Text) → drop n (drop m xs) ≡ drop (m + n) xs
drop-drop zero n xs = ap (λ k. drop k xs) (omega arith)
drop-drop (suc m) n [] = rw (drop-nil n) (rw (drop-nil (suc m + n)) refl)
drop-drop (suc m) n (x ∷ xs) =
    let e : suc m + n ≡ suc (m + n) = omega arith in rw e (drop-drop m n xs)

-- What is taken and what follows it are the whole.
take-rest : (n : ℕ) (xs : List Text) → take n xs ++ drop (length (take n xs)) xs ≡ xs
take-rest zero xs = refl
take-rest (suc n) [] = refl
take-rest (suc n) (x ∷ xs) = ap (◌∷◌ x) (take-rest n xs)

take-length-take : (n : ℕ) (xs : List Text) → take (length (take n xs)) xs ≡ take n xs
take-length-take zero xs = refl
take-length-take (suc n) [] = refl
take-length-take (suc n) (x ∷ xs) = ap (◌∷◌ x) (take-length-take n xs)

drop_on : (i j : ℕ) (xs : List Text) → i ≤ j → drop (j - i) (drop i xs) ≡ drop j xs
drop_on i j xs h = drop-drop i (j - i) xs ∙ ap (λ k. drop k xs) (omega (arith, h))

pub slice-slice :
    (i j k : ℕ) (xs : List Text) → i ≤ j → j ≤ k → slice i j xs ++ slice j k xs ≡ slice i k xs
slice-slice i j k xs h l =
    let e : j - i + (k - j) ≡ k - i = omega (arith, h, l) in
    rw (sym (drop_on i j xs h))
      (take-add (j - i) (k - j) (drop i xs) ∙ ap (λ n. take n (drop i xs)) e)

pub length-slice : (i j : ℕ) (xs : List Text) → j ≤ length xs → length (slice i j xs) ≡ j - i
length-slice i j xs h = omega (arith, length-take (j - i) (drop i xs), length-drop i xs, h)

pub take-slice : (i j : ℕ) (xs : List Text) → i ≤ j → take i xs ++ slice i j xs ≡ take j xs
take-slice i j xs h = take-add i (j - i) xs ∙ ap (λ k. take k xs) (omega (arith, h))

pub slice-drop :
    (i n : ℕ) (xs : List Text)
    → slice i (i + n) xs ++ drop (i + length (slice i (i + n) xs)) xs ≡ drop i xs
slice-drop i n xs =
    let after = slice i (i + n) xs in
    rw (sym (drop-drop i (length after) xs)) (take-rest (i + n - i) (drop i xs))

pub slice-length :
    (i n : ℕ) (xs : List Text) → slice i (i + length (slice i (i + n) xs)) xs ≡ slice i (i + n) xs
slice-length i n xs =
    let after = slice i (i + n) xs in
    let e : i + length after - i ≡ length after = omega arith in
    ap (λ k. take k (drop i xs)) e ∙ take-length-take (i + n - i) (drop i xs)

pub regroup : (p b x f d : List Text) → p ++ (b ++ x ++ f) ++ d ≡ p ++ b ++ x ++ (f ++ d)
regroup p b x f d = simp append_assoc
