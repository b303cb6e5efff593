-- ===== src/Rebase/Autosquash/Prefixes.antt =====
-- extension/webviews-src/rebase/rebaseLogic.ts: the loop that strips the prefixes of a subject ends.
use gitglasses.Base.{
  Bool-cases, Option-cases, starts_with, codes, drop, length, length-drop, subst, ◌<◌, ◌≤◌, Text, ℕ,
  zero, suc, refl, [], ◌∷◌, none, some, inl, inr, ◌≡◌, arith,
}
use gitglasses.Rebase.Plan.{PlanAction}
use gitglasses.Rebase.Autosquash.{prefixed, strip, strip_next}

prefixed-lt :
    (subject : Text) (action : PlanAction) (rest : Text)
    → prefixed subject ≡ some (action, rest)
    → length rest < length subject
unfolding prefixed
prefixed-lt [] action rest h = cc
prefixed-lt (c ∷ subject) action rest h =
    elim (Bool-cases (starts_with (c ∷ subject) (codes "fixup! "))) [
      | inl e ↦
          let same : drop 7 (c ∷ subject) ≡ rest = cc (e, h) in
          subst (λ r. length r < length (c ∷ subject)) same
            (omega (arith, length-drop 7 (c ∷ subject)))
      | inr e ↦ elim (Bool-cases (starts_with (c ∷ subject) (codes "squash! "))) [
        | inl f ↦
            let same : drop 8 (c ∷ subject) ≡ rest = cc (e, f, h) in
            subst (λ r. length r < length (c ∷ subject)) same
              (omega (arith, length-drop 8 (c ∷ subject)))
        | inr f ↦ cc (e, f, h)
      ]
    ]

prefixed-nil : prefixed [] ≡ none
unfolding prefixed
prefixed-nil = refl

-- With a turn for each character, no prefix is left.
pub strip_ends :
    (fuel : ℕ) (subject : Text) → length subject ≤ fuel → prefixed (strip fuel subject) ≡ none
unfolding strip strip_next
strip_ends zero [] h = prefixed-nil
strip_ends zero (c ∷ subject) h = absurd (omega arith)
strip_ends (suc fuel) subject h = elim (Option-cases (prefixed subject)) [
  | inl e ↦ rw e e
  | inr ((action, rest), e) ↦
      rw e (strip_ends fuel rest (omega (arith, prefixed-lt subject action rest e)))
]
