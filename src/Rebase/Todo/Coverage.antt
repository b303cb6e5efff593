-- ===== src/Rebase/Todo/Coverage.antt =====
-- extension/src/webviews/rebaseTodoLogic.ts: no reference of a list is lost or written twice.
use gitglasses.Base.{
  subst, List, Text, ℕ, [], ◌∷◌, ◌++◌, ◌+◌, ◌*◌, ◌≡◌, refl, ap, sym, ◌∙◌, arith, All, Bool-cases,
  Option-cases, map, none, inl, inr, text_eq, text_eq_iff, if◌then◌else◌, true, false,
}
use gitglasses.Rebase.Todo.{ParsedTodo, PlanAction, TodoCommit, by_sha, todo_lines}
use gitglasses.Rebase.Todo.Refs.{refs_in, refs_of, planned_refs, todo_lines-planned_refs}

-- How often a text is in a list.
abbrev pub occurrences : Text → List Text → ℕ
occurrences t [] = 0
occurrences t (s ∷ texts) = (if text_eq s t then 1 else 0) + occurrences t texts

abbrev pub all_refs_of : List TodoCommit → List Text
all_refs_of [] = []
all_refs_of (c ∷ commits) = c.refs ++ all_refs_of commits

abbrev pub shas_of : List TodoCommit → List Text
shas_of = map (λ c. c.sha)

abbrev pub planned_shas : List (Text × PlanAction) → List Text
planned_shas = map (λ entry. entry.0)

abbrev pub IsDistinct : List Text → Type 0
IsDistinct [] = Unit
IsDistinct (sha ∷ shas) = (occurrences sha shas ≡ 0) × IsDistinct shas

occurrences-append :
    (t : Text) (xs ys : List Text) → occurrences t (xs ++ ys) ≡ occurrences t xs + occurrences t ys
occurrences-append t [] ys = omega arith
occurrences-append t (x ∷ xs) ys = omega (arith, occurrences-append t xs ys)

by_sha-missing :
    (sha : Text) (commits : List TodoCommit)
    → occurrences sha (shas_of commits) ≡ 0
    → by_sha sha commits ≡ none
unfolding by_sha
by_sha-missing sha [] h = refl
by_sha-missing sha (c ∷ commits) h = elim (Bool-cases (text_eq c.sha sha)) [
  | inl e ↦ absurd (ground (arith, e, h))
  | inr e ↦ rw (by_sha-missing sha commits (ground (arith, e, h))) (rw e refl)
]

text_eq-false : (s t : Text) → text_eq s t ≡ false → text_eq t s ≡ false
text_eq-false s t h = ground (arith, h, text_eq_iff s t, text_eq_iff t s)

-- The references that a sha brings in, with a commit that no later one hides.
refs_of-cons :
    (t sha : Text) (c : TodoCommit) (commits : List TodoCommit)
    → occurrences c.sha (shas_of commits) ≡ 0
    → occurrences t (refs_of (by_sha sha (c ∷ commits)))
      ≡ (if text_eq sha c.sha then occurrences t c.refs else 0)
        + occurrences t (refs_of (by_sha sha commits))
unfolding by_sha refs_of
refs_of-cons t sha c commits h = elim (Bool-cases (text_eq c.sha sha)) [
  | inl e ↦
      let same : c.sha ≡ sha = (text_eq_iff c.sha sha).0 e in
      let other_way : text_eq sha c.sha ≡ true = (text_eq_iff sha c.sha).1 (sym same) in
      let missing : by_sha sha commits ≡ none =
        by_sha-missing sha commits (subst (λ k. occurrences k (shas_of commits) ≡ 0) same h) in
      rw missing (rw e (rw other_way (omega arith)))
  | inr e ↦
      let other_way : text_eq sha c.sha ≡ false = text_eq-false c.sha sha e in
      elim (Option-cases (by_sha sha commits)) [
        | inl missing ↦ rw missing (rw e (rw other_way (omega arith)))
        | inr (later, found) ↦ rw found (rw other_way (omega arith))
      ]
]

planned-cons :
    (t : Text) (plan : List (Text × PlanAction)) (c : TodoCommit) (commits : List TodoCommit)
    → occurrences c.sha (shas_of commits) ≡ 0
    → occurrences t (planned_refs plan (c ∷ commits))
      ≡ occurrences c.sha (planned_shas plan) * occurrences t c.refs
        + occurrences t (planned_refs plan commits)
unfolding planned_refs
planned-cons t [] c commits h = omega arith
planned-cons t ((sha, action) ∷ plan) c commits h =
    let here =
      occurrences-append t (refs_of (by_sha sha (c ∷ commits))) (planned_refs plan (c ∷ commits)) in
    let there = occurrences-append t (refs_of (by_sha sha commits)) (planned_refs plan commits) in
    elim (Bool-cases (text_eq sha c.sha)) [
      | inl e ↦ rw e (
          grind (
            arith,
            here,
            there,
            planned-cons t plan c commits h,
            simp e at (refs_of-cons t sha c commits h),
          ))
      | inr e ↦ rw e (
          grind (
            arith,
            here,
            there,
            planned-cons t plan c commits h,
            simp e at (refs_of-cons t sha c commits h),
          ))
    ]

planned-nil :
    (t : Text) (plan : List (Text × PlanAction)) → occurrences t (planned_refs plan []) ≡ 0
unfolding planned_refs by_sha refs_of
planned-nil t [] = refl
planned-nil t ((sha, action) ∷ plan) = planned-nil t plan

planned-every :
    (t : Text) (plan : List (Text × PlanAction)) (commits : List TodoCommit)
    → IsDistinct (shas_of commits)
    → All (λ sha. occurrences sha (planned_shas plan) ≡ 1) (shas_of commits)
    → occurrences t (planned_refs plan commits) ≡ occurrences t (all_refs_of commits)
planned-every t plan [] distinct once = planned-nil t plan
planned-every t plan (c ∷ commits) distinct once =
    let split = occurrences-append t c.refs (all_refs_of commits) in
    grind (
      arith,
      split,
      planned-cons t plan c commits distinct.0,
      once.0,
      planned-every t plan commits distinct.1 once.1,
    )

-- Where no two commits of the list that was read have one sha and the plan names each of them once, every reference is
-- written as often as it was read, dropped commits' references included: those ahead of every commit first, then those of
-- the plan's commits in the plan's order.
pub todo_lines-occurrences :
    (plan : List (Text × PlanAction)) (parsed : ParsedTodo)
    → IsDistinct (shas_of parsed.commits)
    → All (λ sha. occurrences sha (planned_shas plan) ≡ 1) (shas_of parsed.commits)
    → (refs_in (todo_lines plan parsed) ≡ parsed.leading_refs ++ planned_refs plan parsed.commits)
      × ((ref : Text)
          → occurrences ref (refs_in (todo_lines plan parsed))
            ≡ occurrences ref parsed.leading_refs + occurrences ref (all_refs_of parsed.commits))
todo_lines-occurrences plan parsed distinct once =
    let order = todo_lines-planned_refs plan parsed in
    (
      order,
      λ ref. rw order (
          occurrences-append ref parsed.leading_refs (planned_refs plan parsed.commits)
          ∙ ap (λ n. occurrences ref parsed.leading_refs + n)
              (planned-every ref plan parsed.commits distinct once)),
    )
