-- ===== src/Blame/Model/Stopped.antt =====
-- extension/src/model/blameModel.ts: why a running request is stopped.
use gitglasses.Base.{
  subst, ◌||◌, ◌==◌, ==_iff, Bool-cases, Option-cases, get_elem?, update_at, text_eq, text_eq_iff,
  text_eq_refl, if◌then◌else◌, Bool, List, Text, ℕ, refl, [], ◌∷◌, true, false, some, inl, inr, ◌≡◌,
  arith,
}
use gitglasses.Base.Maps.{has_key-found, lookup, has_key}
use gitglasses.Blame.Keys.{BlameKey}
use gitglasses.Blame.Model.Cache.{
  BlameModel, stop_running, forget, remove, remove_where, key_passes,
}
use gitglasses.Blame.Model.Requests.{IsCache, get_elem?-update_at_other}
use gitglasses.Blame.Model.Dropped.{flag_of, cancelled_at, key_passes-remove, remove-lookup}

-- The pairs that are still to come are those of the cache, where it has their keys.
abbrev Agree : List (Text × ℕ) → BlameModel → Type 0
Agree pairs s =
    (key : Text) (id j : ℕ) → lookup key pairs ≡ some id → lookup key s.cache ≡ some j → j ≡ id

remove-cancels :
    (key : Text) (s : BlameModel) (i id : ℕ)
    → ((j : ℕ) → lookup key s.cache ≡ some j → j ≡ i)
    → cancelled_at id (remove key true s).requests ≡ true
    → (cancelled_at id s.requests || i == id) ≡ true
unfolding remove forget
remove-cancels key s i id agree h = elim (Option-cases (lookup key s.cache)) [
  | inl e ↦
      let same : (remove key true s).requests ≡ s.requests = rw e refl in
      let before = subst (λ rs. cancelled_at id rs ≡ true) same h in ground (arith, before)
  | inr (j, e) ↦
      let same : (remove key true s).requests ≡ update_at stop_running s.requests j = rw e refl in
      let after = subst (λ rs. cancelled_at id rs ≡ true) same h in
      elim (Bool-cases (j == id)) [
        | inl f ↦ ground (arith, ==_iff j id, ==_iff i id, agree j e)
        | inr f ↦
            let before =
              subst (λ o. flag_of (λ r. r.cancelled) o ≡ true)
                (get_elem?-update_at_other stop_running s.requests j id f) after in
            ground (arith, before)
      ]
]

if_lookup :
    (b : Bool) (k key : Text) (j : ℕ) (s : BlameModel)
    → lookup key (if b then remove k true s else s).cache ≡ some j
    → lookup key s.cache ≡ some j
if_lookup true k key j s h = (remove-lookup k key true s j h).0
if_lookup false k key j s h = h

Agree-if :
    (b : Bool) (k : Text) (i : ℕ) (pairs : List (Text × ℕ)) (s : BlameModel)
    → has_key k pairs ≡ false
    → Agree ((k, i) ∷ pairs) s
    → Agree pairs (if b then remove k true s else s)
Agree-if b k i pairs s absent agree key id j listed found =
    let other : text_eq k key ≡ false =
      ground (arith, has_key-found key pairs id listed, text_eq_iff k key) in
    let listed' : lookup key ((k, i) ∷ pairs) ≡ some id = rw other listed in
    agree key id j listed' (if_lookup b k key j s found)

pub passes_if :
    (b : Bool) (test : BlameKey → Bool) (k : Text) (s : BlameModel) (id : ℕ)
    → key_passes test (get_elem? (if b then remove k true s else s).requests id)
      ≡ key_passes test (get_elem? s.requests id)
passes_if true test k s id = key_passes-remove test k true s id
passes_if false test k s id = refl

cancels_if :
    (b : Bool) (test : BlameKey → Bool) (k : Text) (i : ℕ) (pairs : List (Text × ℕ))
    (s : BlameModel) (id : ℕ)
    → key_passes test (get_elem? s.requests i) ≡ b
    → Agree ((k, i) ∷ pairs) s
    → cancelled_at id (if b then remove k true s else s).requests ≡ true
    → (cancelled_at id s.requests || key_passes test (get_elem? s.requests id)) ≡ true
cancels_if false test k i pairs s id passes agree h = ground (arith, h)
cancels_if true test k i pairs s id passes agree h =
    let agree_here =
      λ (j : ℕ) (e : lookup k s.cache ≡ some j). agree k i j (rw (text_eq_refl k) refl) e in
    elim (Bool-cases (i == id)) [
      | inl e ↦
          let same =
            subst (λ j. key_passes test (get_elem? s.requests j) ≡ true) ((==_iff i id).0 e)
              passes in
          ground (arith, same)
      | inr e ↦ ground (arith, remove-cancels k s i id agree_here h)
    ]

-- A removal stops only requests with keys that pass its test.
pub remove_where-cancels :
    (test : BlameKey → Bool) (pairs : List (Text × ℕ)) (s : BlameModel) (id : ℕ)
    → IsCache pairs
    → Agree pairs s
    → cancelled_at id (remove_where test pairs s).requests ≡ true
    → (cancelled_at id s.requests || key_passes test (get_elem? s.requests id)) ≡ true
unfolding remove_where
remove_where-cancels test [] s id v agree h = ground (arith, h)
remove_where-cancels test ((k, i) ∷ pairs) s id v agree h =
    let passes = key_passes test (get_elem? s.requests i) in
    let s' = if passes then remove k true s else s in
    let later =
      remove_where-cancels test pairs s' id v.2 (Agree-if passes k i pairs s v.0 agree) h in
    ground
      (arith, later, passes_if passes test k s id, cancels_if passes test k i pairs s id refl agree)
