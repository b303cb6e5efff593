-- ===== src/Blame/Model/Bounded.antt =====
-- extension/src/model/blameModel.ts: every operation keeps the count of the bytes and the budgets.
use gitglasses.Base.{
  ap, subst, ◌+◌, ◌≤◌, ==_iff, Bool-cases, Option-cases, All, text_eq, text_eq_refl, length,
  length-append, get_elem?, update_at, if◌then◌else◌, Option, Bool, List, Text, ℕ, zero, suc, refl,
  [], ◌∷◌, true, false, none, some, inl, inr, ◌≡◌, arith,
}
use gitglasses.Base.Maps.{has_key-missing, lookup, remove_key, has_key, has_key-remove_key}
use gitglasses.Blame.Keys.{BlameKey, cache_key_for, estimate_blame_bytes, affects_other_files_blame}
use gitglasses.Blame.Model.{
  failure_id, has, Event, asks, goes, times_out, ends, invalidates, invalidates_path, saves, Token,
  no_token, fired, live, Outcome, answered, refused, BlameFailure, failed_with, restarted, stale,
  was_cancelled, measure, settle, pin, wait, leave, abandon, touch, request, entry_for, get_blame,
  join, leaves, leave_caller, timer_ends, succeed, fail, report_failure, conclude, conclude_running,
  settles, step, run, is_entry, is_stale,
}
use gitglasses.Blame.Model.Cache.{
  Request, BlameModel, remove, forget, remove_where, key_passes, evict_superseded, evict_to_budget,
  invalidate, invalidate_path, invalidate_saved, new_model, in_repo, of_file, is_working_tree,
  is_superseded_by,
}
use gitglasses.Blame.Model.Requests.{
  has_id-lookup, get_elem?-update_at, All-update_at, held-append, held-remove_key,
  IsCache-remove_key, has_id-removed, has_id-remove_key, held-measure, length-update_at,
}
use gitglasses.Blame.Model.Budget.{
  length-remove_key, IsUnsized, IsModel, update-IsSound, remove-IsModel, remove_where-IsModel,
  evict_superseded-IsModel, begin_request-IsModel, evict-IsSound, IsCache-snoc, has_id-snoc,
}

remove-has_key :
    (other key : Text) (stop : Bool) (s : BlameModel)
    → has_key key s.cache ≡ false
    → has_key key (remove other stop s).cache ≡ false
unfolding remove forget
remove-has_key other key stop s h = elim (Option-cases (lookup other s.cache)) [
  | inl e ↦ rw e h
  | inr (id, e) ↦ rw e (ground (arith, has_key-remove_key other key s.cache))
]

remove_if-has_key :
    (b : Bool) (other key : Text) (s : BlameModel)
    → has_key key s.cache ≡ false
    → has_key key (if b then remove other true s else s).cache ≡ false
remove_if-has_key true other key s h = remove-has_key other key true s h
remove_if-has_key false other key s h = h

remove_where-has_key :
    (test : BlameKey → Bool) (key : Text) (cache : List (Text × ℕ)) (s : BlameModel)
    → has_key key s.cache ≡ false
    → has_key key (remove_where test cache s).cache ≡ false
unfolding remove_where
remove_where-has_key test key [] s h = h
remove_where-has_key test key ((k, id) ∷ cache) s h =
    let passes = key_passes test (get_elem? s.requests id) in
    remove_where-has_key test key cache (if passes then remove k true s else s)
      (remove_if-has_key passes k key s h)

evict_superseded-has_key :
    (asked : BlameKey) (key : Text) (s : BlameModel)
    → has_key key s.cache ≡ false
    → has_key key (evict_superseded asked s).cache ≡ false
unfolding evict_superseded
evict_superseded-has_key asked key s h = elim (Bool-cases (is_working_tree asked)) [
  | inl e ↦ rw e (remove_where-has_key (is_superseded_by asked) key s.cache s h)
  | inr e ↦ rw e h
]

length-removed :
    (key : Text) (cache : List (Text × ℕ)) (id : ℕ)
    → lookup key cache ≡ some id
    → suc (length (remove_key key cache)) ≤ length cache
length-removed key [] id h = cc h
length-removed key ((k, i) ∷ cache) id h = elim (Bool-cases (text_eq k key)) [
  | inl e ↦ rw e (omega (arith, length-remove_key key cache))
  | inr e ↦
      let deeper : lookup key cache ≡ some id = cc (e, h) in
      rw e (omega (arith, length-removed key cache id deeper))
]

touch-IsModel :
    (key : Text) (id : ℕ) (s : BlameModel)
    → lookup key s.cache ≡ some id
    → IsModel s
    → IsModel (touch key id s)
unfolding touch
touch-IsModel key id s h v =
    let rest = remove_key key s.cache in
    let absent : has_key key rest ≡ false =
      ground (arith, has_key-remove_key key key s.cache, text_eq_refl key) in
    let gone = has_id-removed key s.cache id v.keyed h in
    record {
      counted = omega (
        arith,
        v.counted,
        held-append s.requests rest ((key, id) ∷ []),
        held-remove_key s.requests key s.cache id v.keyed h,
      );
      keyed = IsCache-snoc key id rest absent gone (IsCache-remove_key key s.cache v.keyed);
      known = λ i g. ground (
        arith,
        has_id-snoc key id i rest,
        has_id-remove_key i key s.cache,
        v.known i g,
        v.known id,
        has_id-lookup key s.cache id h,
        ==_iff id i,
      );
      unsized = v.unsized;
      within =
          ground
            (arith, v.within, length-append rest ((key, id) ∷ []), length-removed key s.cache id h);
    }

join-IsModel : (id : ℕ) (token : Token) (s : BlameModel) → IsModel s → IsModel (join id token s)
unfolding join
join-IsModel id no_token s v =
    update-IsSound pin id s.max_bytes s.max_entries s.cache s.requests s.total_bytes (λ r. refl)
      (λ r h. h) v
join-IsModel id fired s v = v
join-IsModel id live s v =
    update-IsSound wait id s.max_bytes s.max_entries s.cache s.requests s.total_bytes (λ r. refl)
      (λ r h. h) v

get_blame-IsModel :
    (key : BlameKey) (token : Token) (s : BlameModel) → IsModel s → IsModel (get_blame key token s)
unfolding get_blame entry_for request
get_blame-IsModel key token s v =
    let cache_key = cache_key_for key in
    elim (Option-cases (lookup cache_key s.cache)) [
      | inl e ↦
          let absent =
            evict_superseded-has_key key cache_key s (has_key-missing cache_key s.cache e) in
          rw e (
            join-IsModel (length s.requests) token (request key cache_key s) (
              begin_request-IsModel key cache_key (evict_superseded key s) absent
                (evict_superseded-IsModel key s v)))
      | inr (id, e) ↦
          rw e (join-IsModel id token (touch cache_key id s) (touch-IsModel cache_key id s e v))
    ]

leaves-IsModel : (index : ℕ) (s : BlameModel) → IsModel s → IsModel (leaves index s)
unfolding leaves leave_caller
leaves-IsModel index s v = elim (Option-cases (get_elem? s.callers index)) [
  | inl e ↦ rw e v
  | inr (caller, e) ↦ elim (Bool-cases caller.left) [
    | inl f ↦ rw (e, f) v
    | inr f ↦
        rw (e, f)
          (update-IsSound leave caller.request s.max_bytes s.max_entries s.cache s.requests
            s.total_bytes (λ r. refl) (λ r h. h) v)
  ]
]

timer_ends-IsModel : (id : ℕ) (s : BlameModel) → IsModel s → IsModel (timer_ends id s)
unfolding timer_ends
timer_ends-IsModel id s v =
    update-IsSound abandon id s.max_bytes s.max_entries s.cache s.requests s.total_bytes
      (λ r. ground arith) (λ r h. ground arith) v

is_entry-lookup : (id : ℕ) (o : Option ℕ) → is_entry id o ≡ true → o ≡ some id
is_entry-lookup id none h = cc h
is_entry-lookup id (some other) h = ap some ((==_iff other id).0 h)

update_at-update_at :
    (f g : Request → Request) (xs : List Request) (i : ℕ)
    → update_at f (update_at g xs i) i ≡ update_at (λ x. f (g x)) xs i
update_at-update_at f g [] i = refl
update_at-update_at f g (x ∷ xs) zero = refl
update_at-update_at f g (x ∷ xs) (suc i) = ap (◌∷◌ x) (update_at-update_at f g xs i)

unsized_lem :
    (requests : List Request) (id : ℕ) (r : Request)
    → All IsUnsized requests
    → get_elem? requests id ≡ some r
    → r.settled ≡ false
    → r.bytes ≡ 0
unsized_lem [] id r u h s = cc h
unsized_lem (q ∷ requests) zero r u h s =
    let same : q ≡ r = cc h in let unsized = subst IsUnsized same u.0 in ground arith
unsized_lem (q ∷ requests) (suc id) r u h s = unsized_lem requests id r u.1 h s

settle-IsModel :
    (id : ℕ) (s : BlameModel)
    → IsModel s
    → IsModel (record s { requests = update_at settle s.requests id })
settle-IsModel id s v =
    update-IsSound settle id s.max_bytes s.max_entries s.cache s.requests s.total_bytes (λ r. refl)
      (λ r h. refl) v

succeed-IsModel :
    (id bytes : ℕ) (r : Request) (s : BlameModel)
    → get_elem? s.requests id ≡ some r
    → r.settled ≡ false
    → IsModel s
    → IsModel (succeed id bytes r s)
unfolding succeed evict_to_budget
succeed-IsModel id bytes r s g running v =
    let settled = update_at settle s.requests id in
    let sized = update_at (measure bytes) settled id in
    let w = settle-IsModel id s v in
    elim (Bool-cases (is_entry id (lookup (cache_key_for r.key) s.cache))) [
      | inr e ↦ rw e w
      | inl e ↦
          let here = is_entry-lookup id (lookup (cache_key_for r.key) s.cache) e in
          let empty : r.bytes ≡ 0 = unsized_lem s.requests id r v.unsized g running in
          let found : get_elem? settled id ≡ some (settle r) =
            get_elem?-update_at settle s.requests id r g in
          let total =
            held-measure settled id bytes (settle r) (cache_key_for r.key) s.cache found empty
              v.keyed here in
          let unsized : All IsUnsized sized =
            rw (update_at-update_at (measure bytes) settle s.requests id) (
              All-update_at IsUnsized (λ x. measure bytes (settle x)) s.requests id (λ x h. refl)
                v.unsized) in
          rw e (
            evict-IsSound s.max_bytes s.max_entries sized s.cache (s.total_bytes + bytes)
              (omega (arith, total, w.counted)) v.keyed
              (λ i h. v.known i (
                omega (
                  arith,
                  length-update_at (measure bytes) settled id,
                  length-update_at settle s.requests id,
                )))
              unsized)
    ]

report_failure-IsModel :
    (key : BlameKey) (failure : BlameFailure) (s : BlameModel)
    → IsModel s
    → IsModel (report_failure key failure s)
unfolding report_failure
report_failure-IsModel key restarted s v = v
report_failure-IsModel key stale s v = v
report_failure-IsModel key was_cancelled s v = v
report_failure-IsModel key (failed_with message) s v =
    elim (Bool-cases (has (failure_id key message) s.logged_failures)) [
      | inl e ↦ rw e v
      | inr e ↦ rw e (record {
        counted = v.counted;
        keyed = v.keyed;
        known = v.known;
        unsized = v.unsized;
        within = v.within;
      })
    ]

fail-IsModel :
    (id : ℕ) (failure : BlameFailure) (r : Request) (s : BlameModel)
    → IsModel s
    → IsModel (fail id failure r s)
unfolding fail
fail-IsModel id failure r s v =
    let s' = record s { requests = update_at settle s.requests id } in
    let key = cache_key_for r.key in
    let w = settle-IsModel id s v in
    elim (Bool-cases (is_entry id (lookup key s.cache))) [
      | inl e ↦ rw e (
          report_failure-IsModel r.key failure (remove key false s')
            (remove-IsModel key false s' w))
      | inr e ↦ rw e (report_failure-IsModel r.key failure s' w)
    ]

conclude-IsModel :
    (id : ℕ) (outcome : Outcome) (r : Request) (s : BlameModel)
    → get_elem? s.requests id ≡ some r
    → r.settled ≡ false
    → IsModel s
    → IsModel (conclude id outcome r s)
unfolding conclude
conclude-IsModel id (refused failure) r s g running v = fail-IsModel id failure r s v
conclude-IsModel id (answered doc_version blame) r s g running v =
    elim (Bool-cases (is_stale r.key doc_version)) [
      | inl e ↦ rw e (fail-IsModel id stale r s v)
      | inr e ↦ rw e (succeed-IsModel id (estimate_blame_bytes blame) r s g running v)
    ]

settles-IsModel :
    (id : ℕ) (outcome : Outcome) (s : BlameModel) → IsModel s → IsModel (settles id outcome s)
unfolding settles conclude_running
settles-IsModel id outcome s v = elim (Option-cases (get_elem? s.requests id)) [
  | inl e ↦ rw e v
  | inr (r, e) ↦ elim (Bool-cases r.settled) [
    | inl f ↦ rw e (simp f v)
    | inr f ↦ rw e (simp f (conclude-IsModel id outcome r s e f v))
  ]
]

pub step-IsModel :
    (lower : Text → Text) (event : Event) (s : BlameModel)
    → IsModel s
    → IsModel (step lower event s)
unfolding step invalidate invalidate_path invalidate_saved
step-IsModel lower (asks key token) s v = get_blame-IsModel key token s v
step-IsModel lower (goes index) s v = leaves-IsModel index s v
step-IsModel lower (times_out id) s v = timer_ends-IsModel id s v
step-IsModel lower (ends id outcome) s v = settles-IsModel id outcome s v
step-IsModel lower (invalidates repo_id) s v = remove_where-IsModel (in_repo repo_id) s.cache s v
step-IsModel lower (invalidates_path repo_id path) s v =
    remove_where-IsModel (of_file repo_id path) s.cache s v
step-IsModel lower (saves repo_id path) s v =
    elim (Bool-cases (affects_other_files_blame lower path)) [
      | inl e ↦ rw e (remove_where-IsModel (in_repo (some repo_id)) s.cache s v)
      | inr e ↦ rw e (remove_where-IsModel (of_file repo_id path) s.cache s v)
    ]

-- Whatever is asked for, answered, refused, abandoned and invalidated, in any order: the bytes that are counted
-- are the sum of the sizes of the entries, no key and no request is cached twice, and the cache has one entry at most or
-- fits both the number of entries and the bytes that it may have.
pub run-IsModel :
    (lower : Text → Text) (events : List Event) (s : BlameModel)
    → IsModel s
    → IsModel (run lower events s)
unfolding run
run-IsModel lower [] s v = v
run-IsModel lower (event ∷ events) s v =
    run-IsModel lower events (step lower event s) (step-IsModel lower event s v)

pub new_model-IsModel : (b e : ℕ) → IsModel (new_model b e)
new_model-IsModel b e = record {
  counted = refl;
  keyed = tt;
  known = λ i h. refl;
  unsized = tt;
  within = inl (omega arith);
}
