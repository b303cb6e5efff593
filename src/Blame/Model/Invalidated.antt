-- ===== src/Blame/Model/Invalidated.antt =====
-- extension/src/model/blameModel.ts: an invalidation stops the running requests whose entries it removes.
use gitglasses.Base.{
  sym, subst, ◌∙◌, ◌⊎◌, Bool-cases, Option-cases, get_elem?, update_at, text_eq, text_eq_iff,
  if◌then◌else◌, Bool, List, Text, ℕ, zero, suc, refl, [], ◌∷◌, true, false, some, inl, inr, ◌≡◌,
  arith,
}
use gitglasses.Base.Maps.{lookup, lookup-remove_key_other}
use gitglasses.Blame.Keys.{BlameKey}
use gitglasses.Blame.Model.Cache.{
  Request, BlameModel, stop_running, forget, remove, remove_where, key_passes,
}
use gitglasses.Blame.Model.Dropped.{flag_of, flag_of-update_at, cancelled_at, remove-cache}
use gitglasses.Blame.Model.Stopped.{passes_if}

abbrev pub settled_at : ℕ → List Request → Bool
settled_at id requests = flag_of (λ r. r.settled) (get_elem? requests id)

stop_running-cancelled : (r : Request) → r.cancelled ≡ true → (stop_running r).cancelled ≡ true
stop_running-cancelled r h = ground (arith, h)

stays_cancelled :
    (requests : List Request) (i id : ℕ)
    → cancelled_at id requests ≡ true
    → cancelled_at id (update_at stop_running requests i) ≡ true
stays_cancelled [] i id h = h
stays_cancelled (r ∷ requests) zero zero h = stop_running-cancelled r h
stays_cancelled (r ∷ requests) zero (suc id) h = h
stays_cancelled (r ∷ requests) (suc i) zero h = h
stays_cancelled (r ∷ requests) (suc i) (suc id) h = stays_cancelled requests i id h

is_stopped :
    (test : BlameKey → Bool) (requests : List Request) (id : ℕ)
    → key_passes test (get_elem? requests id) ≡ true
    → settled_at id requests ≡ false
    → cancelled_at id (update_at stop_running requests id) ≡ true
is_stopped test [] id passes running = cc passes
is_stopped test (r ∷ requests) zero passes running = rw running refl
is_stopped test (r ∷ requests) (suc id) passes running = is_stopped test requests id passes running

-- The request has been stopped, or its entry is still to come, still cached, and it runs.
abbrev Stopping : (key : Text) (id : ℕ) → List (Text × ℕ) → BlameModel → Type 0
Stopping key id pairs s =
    (cancelled_at id s.requests ≡ true)
    ⊎ ((lookup key pairs ≡ some id)
        × (lookup key s.cache ≡ some id)
        × (settled_at id s.requests ≡ false))

remove-stays :
    (k : Text) (s : BlameModel) (id : ℕ)
    → cancelled_at id s.requests ≡ true
    → cancelled_at id (remove k true s).requests ≡ true
unfolding remove forget
remove-stays k s id h = elim (Option-cases (lookup k s.cache)) [
  | inl e ↦ rw e h
  | inr (i, e) ↦ rw e (stays_cancelled s.requests i id h)
]

remove-settled :
    (k : Text) (s : BlameModel) (id : ℕ)
    → settled_at id (remove k true s).requests ≡ settled_at id s.requests
unfolding remove forget
remove-settled k s id = elim (Option-cases (lookup k s.cache)) [
  | inl e ↦ rw e refl
  | inr (i, e) ↦
      rw e (flag_of-update_at (λ r. r.settled) stop_running s.requests i id (λ r. ground arith))
]

remove-stops :
    (test : BlameKey → Bool) (k : Text) (s : BlameModel) (id : ℕ)
    → lookup k s.cache ≡ some id
    → key_passes test (get_elem? s.requests id) ≡ true
    → settled_at id s.requests ≡ false
    → cancelled_at id (remove k true s).requests ≡ true
unfolding remove forget
remove-stops test k s id e passes running = rw e (is_stopped test s.requests id passes running)

Stopping-if :
    (test : BlameKey → Bool) (k key : Text) (i id : ℕ) (pairs : List (Text × ℕ)) (s : BlameModel)
    (b : Bool)
    → key_passes test (get_elem? s.requests i) ≡ b
    → key_passes test (get_elem? s.requests id) ≡ true
    → Stopping key id ((k, i) ∷ pairs) s
    → Stopping key id pairs (if b then remove k true s else s)
Stopping-if test k key i id pairs s true tested passes (inl done) = inl (remove-stays k s id done)
Stopping-if test k key i id pairs s false tested passes (inl done) = inl done
Stopping-if test k key i id pairs s b tested passes (inr (listed, cached, running)) =
    elim (Bool-cases (text_eq k key)) [
      | inl e ↦
          let here : i ≡ id = cc (e, listed) in
          let found : lookup k s.cache ≡ some id =
            subst (λ t. lookup t s.cache ≡ some id) (sym ((text_eq_iff k key).0 e)) cached in
          let is_removed : b ≡ true =
            sym tested
            ∙ subst (λ j. key_passes test (get_elem? s.requests j) ≡ true) (sym here) passes in
          rw is_removed (inl (remove-stops test k s id found passes running))
      | inr e ↦ inr (cc (e, listed), kept b e, runs b)
    ]
  where
    kept :
        (c : Bool)
        → text_eq k key ≡ false
        → lookup key (if c then remove k true s else s).cache ≡ some id
    kept true e = rw (remove-cache k true s) (lookup-remove_key_other k key s.cache e ∙ cached)
    kept false e = cached

    runs : (c : Bool) → settled_at id (if c then remove k true s else s).requests ≡ false
    runs true = remove-settled k s id ∙ running
    runs false = running

-- A removal stops the running requests that it removes.
remove_where-Stopping :
    (test : BlameKey → Bool) (key : Text) (id : ℕ) (pairs : List (Text × ℕ)) (s : BlameModel)
    → key_passes test (get_elem? s.requests id) ≡ true
    → Stopping key id pairs s
    → cancelled_at id (remove_where test pairs s).requests ≡ true
unfolding remove_where
remove_where-Stopping test key id [] s passes (inl done) = done
remove_where-Stopping test key id [] s passes (inr h) = cc (h.0)
remove_where-Stopping test key id ((k, i) ∷ pairs) s passes h =
    let b = key_passes test (get_elem? s.requests i) in
    remove_where-Stopping test key id pairs (if b then remove k true s else s)
      (passes_if b test k s id ∙ passes) (Stopping-if test k key i id pairs s b refl passes h)

pub remove_where-stops :
    (test : BlameKey → Bool) (key : Text) (id : ℕ) (s : BlameModel)
    → lookup key s.cache ≡ some id
    → settled_at id s.requests ≡ false
    → key_passes test (get_elem? s.requests id) ≡ true
    → cancelled_at id (remove_where test s.cache s).requests ≡ true
remove_where-stops test key id s cached running passes =
    remove_where-Stopping test key id s.cache s passes (inr (cached, cached, running))
