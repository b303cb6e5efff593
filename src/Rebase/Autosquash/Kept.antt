-- ===== src/Rebase/Autosquash/Kept.antt =====
-- extension/webviews-src/rebase/rebaseLogic.ts: autosquash keeps every commit.
use mathlib.Core.Bool.{false≢true}
use gitglasses.Base.{
  ◌<◌, sym, ap, subst, ◌+◌, ◌||◌, ◌⊎◌, text_eq, text_eq_iff, text_eq_refl, some_of-append,
  append_assoc, find_first, Bool-cases, if◌then◌else◌, Text, List, Bool, ℕ, refl, [], ◌∷◌, true,
  false, some, inl, inr, ◌++◌, ◌≡◌, arith,
}
use gitglasses.Base.Maps.{lookup-missing, set_key, has_key, lookup-set_key, lookup-set_key_other}
use gitglasses.Rebase.Plan.{PlanEntry}
use gitglasses.Rebase.Autosquash.{
  Folds, chain_in, chain_of, holds, root_of, append_fold, flat, find_first,
}

-- How often a commit stands in a list.
abbrev pub count_of : Text → List PlanEntry → ℕ
count_of sha [] = 0
count_of sha (entry ∷ entries) = (if text_eq entry.sha sha then 1 else 0) + count_of sha entries

-- No commit twice.
abbrev pub AreDistinct : List PlanEntry → Type 0
AreDistinct [] = Unit
AreDistinct (entry ∷ entries) = (holds entry.sha entries ≡ false) × AreDistinct entries

abbrev pub in_chains : Text → Folds → Bool
in_chains sha [] = false
in_chains sha ((key, chain) ∷ folds) = holds sha chain || in_chains sha folds

pub count_of-append :
    (sha : Text) (xs ys : List PlanEntry)
    → count_of sha (xs ++ ys) ≡ count_of sha xs + count_of sha ys
count_of-append sha [] ys = omega arith
count_of-append sha (x ∷ xs) ys = omega (arith, count_of-append sha xs ys)

pub count_of-holds :
    (sha : Text) (xs : List PlanEntry) → (holds sha xs ≡ true) ⊎ (count_of sha xs ≡ 0)
count_of-holds sha [] = inr refl
count_of-holds sha (x ∷ xs) = ground (arith, count_of-holds sha xs)

pub holds-positive : (sha : Text) (xs : List PlanEntry) → holds sha xs ≡ true → 0 < count_of sha xs
holds-positive sha [] h = absurd (false≢true h)
holds-positive sha (x ∷ xs) h = ground (arith, holds-positive sha xs)

chain_of-in_chains :
    (sha key : Text) (folds : Folds)
    → holds sha (chain_of key folds) ≡ true
    → in_chains sha folds ≡ true
chain_of-in_chains sha key [] h = absurd (false≢true h)
chain_of-in_chains sha key ((k, chain) ∷ folds) h = elim (Bool-cases (text_eq k key)) [
  | inl e ↦ ground arith
  | inr e ↦ ground (arith, chain_of-in_chains sha key folds)
]

-- What is in the result is left or folded.
pub flat-holds :
    (sha : Text) (rest : List PlanEntry) (folds : Folds)
    → holds sha (flat rest folds) ≡ true
    → (holds sha rest || in_chains sha folds) ≡ true
unfolding flat
flat-holds sha [] folds h = absurd (false≢true h)
flat-holds sha (entry ∷ rest) folds h = ground (
  arith,
  some_of-append (λ e. text_eq e.sha sha) (chain_of entry.sha folds) (flat rest folds),
  chain_of-in_chains sha entry.sha folds,
  flat-holds sha rest folds,
)

-- A fold at a commit that is not left changes nothing; at one that is left once, it adds the folded commit.
flat-other :
    (sha : Text) (chain : List PlanEntry) (rest : List PlanEntry) (folds : Folds)
    → holds sha rest ≡ false
    → flat rest (set_key sha chain folds) ≡ flat rest folds
unfolding flat
flat-other sha chain [] folds h = refl
flat-other sha chain (entry ∷ rest) folds h =
    let differ : text_eq sha entry.sha ≡ false =
      ground (arith, text_eq_iff sha entry.sha, text_eq_iff entry.sha sha) in
    let later : holds sha rest ≡ false = ground arith in
    rw
      (lookup-set_key_other sha entry.sha chain folds differ, flat-other sha chain rest folds later)
      refl

pub flat-append_fold :
    (sha other : Text) (folded : PlanEntry) (rest : List PlanEntry) (folds : Folds)
    → holds sha rest ≡ true
    → AreDistinct rest
    → count_of other (flat rest (append_fold sha folded folds))
      ≡ count_of other (flat rest folds) + count_of other (folded ∷ [])
unfolding flat
flat-append_fold sha other folded [] folds h d = absurd (false≢true h)
flat-append_fold sha other folded (entry ∷ rest) folds h d =
    elim (Bool-cases (text_eq entry.sha sha)) [
      | inl e ↦
          let here : entry.sha ≡ sha = (text_eq_iff entry.sha sha).0 e in
          let absent : holds sha rest ≡ false = subst (λ s. holds s rest ≡ false) here d.0 in
          let new : chain_of entry.sha (append_fold sha folded folds)
              ≡ chain_of sha folds ++ folded ∷ [] =
            subst
              (λ key.
                chain_of key (append_fold sha folded folds) ≡ chain_of sha folds ++ folded ∷ [])
              (sym here)
              (ap chain_in (lookup-set_key sha (chain_of sha folds ++ folded ∷ []) folds)) in
          let old : chain_of entry.sha folds ≡ chain_of sha folds =
            ap (λ key. chain_of key folds) here in
          rw (new, old, flat-other sha (chain_of sha folds ++ folded ∷ []) rest folds absent)
            (omega (
              arith,
              count_of-append other (chain_of sha folds ++ folded ∷ []) (flat rest folds),
              count_of-append other (chain_of sha folds) (folded ∷ []),
              count_of-append other (chain_of sha folds) (flat rest folds),
            ))
      | inr e ↦
          let differ : text_eq sha entry.sha ≡ false =
            ground (arith, text_eq_iff sha entry.sha, text_eq_iff entry.sha sha) in
          let later : holds sha rest ≡ true = ground arith in
          rw (lookup-set_key_other sha entry.sha (chain_of sha folds ++ folded ∷ []) folds differ) (
            omega (
              arith,
              flat-append_fold sha other folded rest folds later d.1,
              count_of-append other (chain_of entry.sha folds) (flat rest folds),
              count_of-append other (chain_of entry.sha folds)
                  (flat rest (append_fold sha folded folds)),
            ))
    ]

pub flat-snoc :
    (entry : PlanEntry) (rest : List PlanEntry) (folds : Folds)
    → has_key entry.sha folds ≡ false
    → flat (rest ++ entry ∷ []) folds ≡ flat rest folds ++ entry ∷ []
unfolding flat
flat-snoc entry [] folds h = rw (lookup-missing entry.sha folds h) refl
flat-snoc entry (e ∷ rest) folds h =
    rw (flat-snoc entry rest folds h)
      (ap (◌∷◌ e) (sym (append_assoc (chain_of e.sha folds) (flat rest folds) (entry ∷ []))))

-- Where a chain has the target, the root that is found is the key of a chain.
pub root_of-key :
    (plan : List PlanEntry) (target : PlanEntry) (folds : Folds) (root : PlanEntry)
    → ((key : Text)
        → has_key key folds ≡ true
        → (e : PlanEntry) × (find_first (λ entry. text_eq entry.sha key) plan ≡ some e)
          × (e.sha ≡ key))
    → ((in_chains target.sha folds ≡ false) × (root_of plan target folds root ≡ root))
      ⊎ (has_key (root_of plan target folds root).sha folds ≡ true)
unfolding root_of
root_of-key plan target [] root found = inl (refl, refl)
root_of-key plan target ((key, chain) ∷ folds) root found =
    let deeper : (k : Text)
        → has_key k folds ≡ true
        → (e : PlanEntry) × (find_first (λ entry. text_eq entry.sha k) plan ≡ some e)
          × (e.sha ≡ k) =
      λ k h. found k (ground arith) in
    elim (Bool-cases (holds target.sha chain)) [
      | inl e ↦
          let (entry, at, same) = found key (ground (arith, text_eq_refl key)) in
          elim (root_of-key plan target folds entry deeper) [
            | inl (none_deeper, kept) ↦
                let root_is : root_of plan target ((key, chain) ∷ folds) root ≡ entry =
                  rw (e, at) kept in
                inr (
                  subst (λ r. has_key r.sha ((key, chain) ∷ folds) ≡ true) (sym root_is)
                    (ground (arith, same, text_eq_iff key entry.sha)))
            | inr deep ↦
                let root_is : root_of plan target ((key, chain) ∷ folds) root
                    ≡ root_of plan target folds entry =
                  rw (e, at) refl in
                inr (
                  subst (λ r. has_key r.sha ((key, chain) ∷ folds) ≡ true) (sym root_is)
                    (ground (arith, deep)))
          ]
      | inr e ↦ elim (root_of-key plan target folds root deeper) [
        | inl (none_deeper, kept) ↦ inl (ground arith, rw e kept)
        | inr deep ↦
            let root_is : root_of plan target ((key, chain) ∷ folds) root
                ≡ root_of plan target folds root =
              rw e refl in
            inr (
              subst (λ r. has_key r.sha ((key, chain) ∷ folds) ≡ true) (sym root_is)
                (ground (arith, deep)))
      ]
    ]
