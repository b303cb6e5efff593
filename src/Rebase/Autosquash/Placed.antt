-- ===== src/Rebase/Autosquash/Placed.antt =====
-- extension/webviews-src/rebase/rebaseLogic.ts: autosquash keeps every commit, once.
use mathlib.Core.Bool.{false≢true}
use gitglasses.Base.{
  starts_with, length, sym, subst, ◌∙◌, ◌||◌, ◌⊎◌, text_eq, text_eq_iff, text_eq_refl,
  some_of-append, append_assoc, append-nil, find_first, Bool-cases, if◌then◌else◌, Text, Option,
  List, Bool, refl, [], ◌∷◌, true, false, none, some, inl, inr, ◌++◌, ◌≡◌, arith,
}
use gitglasses.Base.Maps.{set_key, has_key}
use gitglasses.Rebase.Plan.{PlanAction, PlanEntry}
use gitglasses.Rebase.Autosquash.{
  Folds, holds, root_of, prefixed, fold_target, aim, fold_of, chain_of, place, place_all, flat,
  autosquash, autosquash_target, or_entry, is_short_sha, strip,
}
use gitglasses.Rebase.Autosquash.Kept.{
  count_of, AreDistinct, count_of-append, count_of-holds, holds-positive, flat-holds,
  flat-append_fold, flat-snoc, root_of-key,
}

-- What has been placed so far: the keys of the folds are left, what is left is distinct and has been seen, and the
-- result so far has what has been seen.
pub record IsPlaced (earlier : List PlanEntry) (state : Folds × List PlanEntry) : Type 0 where
  pub keyed : (key : Text) → has_key key state.0 ≡ true → holds key state.1 ≡ true
  pub distinct : AreDistinct state.1
  pub known : (sha : Text) → holds sha state.1 ≡ true → holds sha earlier ≡ true
  pub kept : (sha : Text) → count_of sha (flat state.1 state.0) ≡ count_of sha earlier

find_first-holds :
    (t : PlanEntry → Bool) (xs : List PlanEntry) (found : PlanEntry)
    → find_first t xs ≡ some found
    → holds found.sha xs ≡ true
find_first-holds t [] found h = cc
find_first-holds t (x ∷ xs) found h = elim (Bool-cases (t x)) [
  | inl e ↦
      let same : x ≡ found = cc (e, h) in
      subst (λ f. holds f.sha (x ∷ xs) ≡ true) same (ground (arith, text_eq_refl x.sha))
  | inr e ↦ ground (arith, find_first-holds t xs found)
]

find_first-sha :
    (key : Text) (xs : List PlanEntry)
    → holds key xs ≡ true
    → (e : PlanEntry) × (find_first (λ entry. text_eq entry.sha key) xs ≡ some e) × (e.sha ≡ key)
find_first-sha key [] h = absurd (false≢true h)
find_first-sha key (x ∷ xs) h = elim (Bool-cases (text_eq x.sha key)) [
  | inl e ↦ (x, rw e refl, (text_eq_iff x.sha key).0 e)
  | inr e ↦ let (entry, at, same) = find_first-sha key xs (ground arith) in (entry, rw e at, same)
]

or_entry-some :
    (a b : Option PlanEntry) (found : PlanEntry)
    → or_entry a b ≡ some found
    → (a ≡ some found) ⊎ (b ≡ some found)
or_entry-some none b found h = inr h
or_entry-some (some entry) b found h = inl h

autosquash_target-holds :
    (subject : Text) (earlier : List PlanEntry) (target : PlanEntry)
    → autosquash_target subject earlier ≡ some target
    → holds target.sha earlier ≡ true
unfolding autosquash_target
autosquash_target-holds subject earlier target h =
    let rest = strip (length subject) subject in
    let by_sha =
      if is_short_sha rest
      then find_first (λ entry. starts_with entry.sha rest) earlier
      else none in
    let by_start = find_first (λ entry. starts_with entry.summary rest) earlier in
    elim (or_entry-some (find_first (λ entry. text_eq entry.summary rest) earlier)
      (or_entry by_sha by_start) target h) [
        | inl e ↦ find_first-holds (λ entry. text_eq entry.summary rest) earlier target e
        | inr other ↦ elim (or_entry-some by_sha by_start target other) [
          | inl e ↦ elim (Bool-cases (is_short_sha rest)) [
            | inl short ↦
                find_first-holds (λ entry. starts_with entry.sha rest) earlier target
                  (cc (short, e))
            | inr long ↦ cc (long, e)
          ]
          | inr e ↦ find_first-holds (λ entry. starts_with entry.summary rest) earlier target e
        ]
      ]

aim-some :
    (action other : PlanAction) (o : Option PlanEntry) (target : PlanEntry)
    → aim action o ≡ some (other, target)
    → o ≡ some target
unfolding aim
aim-some action other none target h = cc
aim-some action other (some entry) target h = cc

fold_target-holds :
    (subject : Text) (earlier : List PlanEntry) (p : Option (PlanAction × Text))
    (action : PlanAction) (target : PlanEntry)
    → fold_target subject earlier p ≡ some (action, target)
    → holds target.sha earlier ≡ true
unfolding fold_target
fold_target-holds subject earlier none action target h = cc
fold_target-holds subject earlier (some (a, rest)) action target h =
    autosquash_target-holds subject earlier target
      (aim-some a action (autosquash_target subject earlier) target h)

fold_of-holds :
    (entry : PlanEntry) (earlier : List PlanEntry) (action : PlanAction) (target : PlanEntry)
    → fold_of entry earlier ≡ some (action, target)
    → holds target.sha earlier ≡ true
unfolding fold_of fold_target
fold_of-holds entry earlier action target h =
    fold_target-holds entry.summary earlier (prefixed entry.summary) action target h

AreDistinct-snoc :
    (entry : PlanEntry) (xs : List PlanEntry)
    → holds entry.sha xs ≡ false
    → AreDistinct xs
    → AreDistinct (xs ++ entry ∷ [])
AreDistinct-snoc entry [] h d = (refl, tt)
AreDistinct-snoc entry (x ∷ xs) h d = ground (
  arith,
  some_of-append (λ e. text_eq e.sha x.sha) xs (entry ∷ []),
  text_eq_iff x.sha entry.sha,
  text_eq_iff entry.sha x.sha,
  AreDistinct-snoc entry xs,
)

has_key-set_key :
    {A : Type 0} (key other : Text) (v : A) (m : List (Text × A))
    → has_key other (set_key key v m) ≡ true
    → (text_eq key other || has_key other m) ≡ true
has_key-set_key key other v [] h = ground arith
has_key-set_key key other v ((k, w) ∷ m) h =
    ground (arith, has_key-set_key key other v m, text_eq_iff k key)

module _ (plan earlier : List PlanEntry) (folds : Folds) (rest : List PlanEntry)
    (v : IsPlaced earlier (folds, rest))
    (within : (sha : Text) → holds sha earlier ≡ true → holds sha plan ≡ true) where
  root-left :
      (target : PlanEntry)
      → holds target.sha earlier ≡ true
      → holds (root_of plan target folds target).sha rest ≡ true
  root-left target h =
      elim (root_of-key plan target folds target
        (λ key k. find_first-sha key plan (within key (v.known key (v.keyed key k))))) [
          | inr key ↦ v.keyed (root_of plan target folds target).sha key
          | inl (unchained, same) ↦ rw same (elim (count_of-holds target.sha (flat rest folds)) [
            | inl there ↦ ground (arith, flat-holds target.sha rest folds)
            | inr absent ↦
                absurd
                  (omega (arith, v.kept target.sha, holds-positive target.sha earlier h, absent))
          ])
        ]

  place-IsPlaced :
      (entry : PlanEntry) (fold : Option (PlanAction × PlanEntry))
      → holds entry.sha earlier ≡ false
      → ((action : PlanAction) (target : PlanEntry)
          → fold ≡ some (action, target)
          → holds target.sha earlier ≡ true)
      → IsPlaced (earlier ++ entry ∷ []) (place plan entry fold (folds, rest))
  unfolding place
  place-IsPlaced entry none n t =
      let new : holds entry.sha rest ≡ false = ground (arith, v.known entry.sha) in
      let keyless : has_key entry.sha folds ≡ false = ground (arith, v.keyed entry.sha) in
      record {
        keyed = λ key k.
            ground (arith, v.keyed key, some_of-append (λ e. text_eq e.sha key) rest (entry ∷ []));
        distinct = AreDistinct-snoc entry rest new v.distinct;
        known = λ sha h. ground (
          arith,
          v.known sha,
          some_of-append (λ e. text_eq e.sha sha) rest (entry ∷ []),
          some_of-append (λ e. text_eq e.sha sha) earlier (entry ∷ []),
        );
        kept = λ sha. rw (flat-snoc entry rest folds keyless) (
            omega (
              arith,
              v.kept sha,
              count_of-append sha (flat rest folds) (entry ∷ []),
              count_of-append sha earlier (entry ∷ []),
            ));
      }
  place-IsPlaced entry (some (action, target)) n t =
      let root = (root_of plan target folds target).sha in
      let left = root-left target (t action target refl) in
      let folded = record entry { action = action } in
      record {
        keyed = λ key k. ground (
          arith,
          has_key-set_key root key (chain_of root folds ++ folded ∷ []) folds k,
          v.keyed key,
          text_eq_iff root key,
          left,
        );
        distinct = v.distinct;
        known = λ sha h.
            ground
              (arith, v.known sha, some_of-append (λ e. text_eq e.sha sha) earlier (entry ∷ []));
        kept = λ sha. omega (
          arith,
          v.kept sha,
          flat-append_fold root sha folded rest folds left v.distinct,
          count_of-append sha earlier (entry ∷ []),
        );
      }

AreDistinct-append :
    (xs : List PlanEntry) (entry : PlanEntry) (ys : List PlanEntry)
    → AreDistinct (xs ++ entry ∷ ys)
    → holds entry.sha xs ≡ false
AreDistinct-append [] entry ys d = refl
AreDistinct-append (x ∷ xs) entry ys d = ground (
  arith,
  some_of-append (λ e. text_eq e.sha x.sha) xs (entry ∷ ys),
  text_eq_iff x.sha entry.sha,
  text_eq_iff entry.sha x.sha,
  AreDistinct-append xs entry ys,
)

place_all-IsPlaced :
    (plan earlier entries : List PlanEntry) (state : Folds × List PlanEntry)
    → IsPlaced earlier state
    → earlier ++ entries ≡ plan
    → AreDistinct plan
    → IsPlaced plan (place_all plan earlier entries state)
unfolding place_all
place_all-IsPlaced plan earlier [] (folds, rest) v same d =
    subst (λ p. IsPlaced p (folds, rest)) (sym (append-nil earlier) ∙ same) v
place_all-IsPlaced plan earlier (entry ∷ entries) (folds, rest) v same d =
    let new = AreDistinct-append earlier entry entries (subst AreDistinct (sym same) d) in
    let within : (sha : Text) → holds sha earlier ≡ true → holds sha plan ≡ true = λ sha h.
      subst (λ p. holds sha p ≡ true) same
        (ground (arith, some_of-append (λ e. text_eq e.sha sha) earlier (entry ∷ entries))) in
    place_all-IsPlaced plan (earlier ++ entry ∷ []) entries
      (place plan entry (fold_of entry earlier) (folds, rest))
      (place-IsPlaced plan earlier folds rest v within entry (fold_of entry earlier) new
        (fold_of-holds entry earlier))
      (append_assoc earlier (entry ∷ []) entries ∙ same) d

-- When no commit stands twice in the plan, autosquash neither loses a commit nor doubles one: each stands as often in the
-- squashed plan as in the plan, also where a fold names a commit that is itself folded into another.
pub autosquash-count_of :
    (plan : List PlanEntry) (sha : Text)
    → AreDistinct plan
    → count_of sha (autosquash plan) ≡ count_of sha plan
unfolding autosquash
autosquash-count_of plan sha d =
    (place_all-IsPlaced plan [] plan ([], [])
        (record {
          keyed = λ key k. absurd (false≢true k);
          distinct = tt;
          known = λ s h. absurd (false≢true h);
          kept = λ s. refl;
        })
        refl d).kept
      sha
