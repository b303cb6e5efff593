-- ===== src/Blame/Model/Budget.antt =====
-- extension/src/model/blameModel.ts: the bytes that are counted are those that the cache holds, and they fit the budget.
use gitglasses.Base.{
  sym, ◌∙◌, ◌-◌, ◌≤◌, ◌⊎◌, ◌||◌, ◌&&◌, ltb, ◌==◌, ==_iff, Bool-cases, Option-cases, All, All-append,
  text_eq, text_eq_iff, length, length-append, get_elem?, update_at, if◌then◌else◌, Bool, List,
  Text, ℕ, suc, refl, [], ◌∷◌, true, false, some, inl, inr, ◌++◌, ◌≡◌, arith,
}
use gitglasses.Base.Maps.{lookup, remove_key, has_key}
use gitglasses.Blame.Keys.{BlameKey}
use gitglasses.Blame.Model.{new_request, begin_request}
use gitglasses.Blame.Model.Cache.{
  Request, BlameModel, bytes_at, stop_running, forget, remove, evict, evict_to_budget, remove_where,
  key_passes, evict_superseded, is_working_tree, is_superseded_by,
}
use gitglasses.Blame.Model.Requests.{
  held, has_id, IsCache, length-update_at, All-update_at, number_of-update_at, held_ext,
  held-append, number_of-snoc, held-remove_key, has_id-remove_key, IsCache-remove_key,
}

abbrev pub IsUnsized : Request → Type 0
IsUnsized r = (r.settled || r.bytes == 0) ≡ true

abbrev pub Within : ℕ → ℕ → ℕ → ℕ → Type 0
Within max_bytes max_entries entries total =
    (entries ≤ 1) ⊎ ((entries ≤ max_entries) × (total ≤ max_bytes))

-- The count is right, no key or request stands twice in the cache, a request has no size before it has settled, and the
-- cache has one entry at most or fits both budgets.
pub record IsSound (max_bytes max_entries : ℕ) (cache : List (Text × ℕ)) (requests : List Request)
    (total : ℕ) : Type 0 where
  pub counted : total ≡ held requests cache
  pub keyed : IsCache cache
  pub known : (id : ℕ) → length requests ≤ id → has_id id cache ≡ false
  pub unsized : All IsUnsized requests
  pub within : Within max_bytes max_entries (length cache) total

abbrev pub IsModel : BlameModel → Type 0
IsModel s = IsSound s.max_bytes s.max_entries s.cache s.requests s.total_bytes

-- A change of one request that leaves its size alone and settles nothing back.
pub update-IsSound :
    (f : Request → Request) (id b e : ℕ) (cache : List (Text × ℕ)) (requests : List Request)
    (total : ℕ)
    → ((r : Request) → (f r).bytes ≡ r.bytes)
    → ((r : Request) → IsUnsized r → IsUnsized (f r))
    → IsSound b e cache requests total
    → IsSound b e cache (update_at f requests id) total
update-IsSound f id b e cache requests total same kept v = record {
  counted =
      v.counted
      ∙ sym (
          held_ext (update_at f requests id) requests cache
            (λ j. number_of-update_at (λ r. r.bytes) f requests id j same));
  keyed = v.keyed;
  known = λ i h. v.known i (omega (arith, length-update_at f requests id));
  unsized = All-update_at IsUnsized f requests id kept v.unsized;
  within = v.within;
}

pub length-remove_key :
    (key : Text) (cache : List (Text × ℕ)) → length (remove_key key cache) ≤ length cache
length-remove_key key [] = omega arith
length-remove_key key ((k, i) ∷ cache) = ground (arith, length-remove_key key cache)

forget-IsSound :
    (key : Text) (id b e : ℕ) (cache : List (Text × ℕ)) (requests : List Request) (total : ℕ)
    → lookup key cache ≡ some id
    → IsSound b e cache requests total
    → IsSound b e (remove_key key cache) requests (total - bytes_at requests id)
forget-IsSound key id b e cache requests total h v = record {
  counted = omega (arith, v.counted, held-remove_key requests key cache id v.keyed h);
  keyed = IsCache-remove_key key cache v.keyed;
  known = λ i g. has_id-remove_key i key cache (v.known i g);
  unsized = v.unsized;
  within = ground (arith, v.within, length-remove_key key cache);
}

stop_running-bytes : (r : Request) → (stop_running r).bytes ≡ r.bytes
stop_running-bytes r = ground arith

stop_running-IsUnsized : (r : Request) → IsUnsized r → IsUnsized (stop_running r)
stop_running-IsUnsized r h = ground arith

pub remove-IsModel :
    (key : Text) (stop : Bool) (s : BlameModel) → IsModel s → IsModel (remove key stop s)
unfolding remove forget
remove-IsModel key stop s v = elim (Option-cases (lookup key s.cache)) [
  | inl e ↦ rw e v
  | inr (id, e) ↦
      let gone =
        forget-IsSound key id s.max_bytes s.max_entries s.cache s.requests s.total_bytes e v in
      elim (Bool-cases stop) [
        | inl t ↦
            rw (e, t)
              (update-IsSound stop_running id s.max_bytes s.max_entries (remove_key key s.cache)
                s.requests (s.total_bytes - bytes_at s.requests id) stop_running-bytes
                stop_running-IsUnsized gone)
        | inr t ↦ rw (e, t) gone
      ]
]

remove_if-IsModel :
    (b : Bool) (key : Text) (s : BlameModel)
    → IsModel s
    → IsModel (if b then remove key true s else s)
remove_if-IsModel true key s v = remove-IsModel key true s v
remove_if-IsModel false key s v = v

pub remove_where-IsModel :
    (test : BlameKey → Bool) (cache : List (Text × ℕ)) (s : BlameModel)
    → IsModel s
    → IsModel (remove_where test cache s)
unfolding remove_where
remove_where-IsModel test [] s v = v
remove_where-IsModel test ((key, id) ∷ cache) s v =
    let passes = key_passes test (get_elem? s.requests id) in
    remove_where-IsModel test cache (if passes then remove key true s else s)
      (remove_if-IsModel passes key s v)

-- The eviction keeps the count and ends within the budgets.
pub evict-IsSound :
    (b e : ℕ) (requests : List Request) (cache : List (Text × ℕ)) (total : ℕ)
    → total ≡ held requests cache
    → IsCache cache
    → ((id : ℕ) → length requests ≤ id → has_id id cache ≡ false)
    → All IsUnsized requests
    → IsSound b e (evict b e requests cache total).0 requests (evict b e requests cache total).1
unfolding evict
evict-IsSound b e requests [] total h v k u = record {
  counted = h;
  keyed = tt;
  known = k;
  unsized = u;
  within = inl (omega arith);
}
evict-IsSound b e requests ((key, id) ∷ cache) total h v k u =
    elim (Bool-cases (ltb 1 (suc (length cache)) && (ltb e (suc (length cache)) || ltb b total))) [
      | inl over ↦ rw over (
          evict-IsSound b e requests cache (total - bytes_at requests id) (omega arith) v.2
            (λ i g. ground (arith, k i g)) u)
      | inr fits ↦
          rw fits (record { counted = h; keyed = v; known = k; unsized = u; within = ground arith })
    ]

pub evict_superseded-IsModel :
    (key : BlameKey) (s : BlameModel) → IsModel s → IsModel (evict_superseded key s)
unfolding evict_superseded
evict_superseded-IsModel key s v = elim (Bool-cases (is_working_tree key)) [
  | inl e ↦ rw e (remove_where-IsModel (is_superseded_by key) s.cache s v)
  | inr e ↦ rw e v
]

has_key-snoc :
    (key other : Text) (id : ℕ) (cache : List (Text × ℕ))
    → has_key other (cache ++ (key, id) ∷ []) ≡ (has_key other cache || text_eq key other)
has_key-snoc key other id [] = ground arith
has_key-snoc key other id ((k, i) ∷ cache) = ground (arith, has_key-snoc key other id cache)

pub has_id-snoc :
    (key : Text) (id i : ℕ) (cache : List (Text × ℕ))
    → has_id i (cache ++ (key, id) ∷ []) ≡ (has_id i cache || id == i)
has_id-snoc key id i [] = ground arith
has_id-snoc key id i ((k, j) ∷ cache) = ground (arith, has_id-snoc key id i cache)

pub IsCache-snoc :
    (key : Text) (id : ℕ) (cache : List (Text × ℕ))
    → has_key key cache ≡ false
    → has_id id cache ≡ false
    → IsCache cache
    → IsCache (cache ++ (key, id) ∷ [])
IsCache-snoc key id [] h g v = (refl, refl, tt)
IsCache-snoc key id ((k, i) ∷ cache) h g v = ground (
  arith,
  has_key-snoc key k id cache,
  has_id-snoc key id i cache,
  text_eq_iff k key,
  text_eq_iff key k,
  ==_iff i id,
  ==_iff id i,
  IsCache-snoc key id cache,
)

pub held-snoc :
    (requests : List Request) (r : Request) (cache : List (Text × ℕ))
    → r.bytes ≡ 0
    → held (requests ++ r ∷ []) cache ≡ held requests cache
held-snoc requests r cache z =
    held_ext (requests ++ r ∷ []) requests cache (λ j. number_of-snoc (λ r. r.bytes) requests r j z)

bytes_at_end : (requests : List Request) → bytes_at requests (length requests) ≡ 0
bytes_at_end [] = refl
bytes_at_end (r ∷ requests) = bytes_at_end requests

pub begin_request-IsModel :
    (key : BlameKey) (cache_key : Text) (s : BlameModel)
    → has_key cache_key s.cache ≡ false
    → IsModel s
    → IsModel (begin_request key cache_key s)
unfolding begin_request evict_to_budget
begin_request-IsModel key cache_key s h v =
    let id = length s.requests in
    let fresh = v.known id (omega arith) in
    let requests = s.requests ++ new_request key ∷ [] in
    let cache = s.cache ++ (cache_key, id) ∷ [] in
    evict-IsSound s.max_bytes s.max_entries requests cache s.total_bytes
      (omega (
        arith,
        v.counted,
        held-snoc s.requests (new_request key) cache refl,
        held-append s.requests s.cache ((cache_key, id) ∷ []),
        bytes_at_end s.requests,
      ))
      (IsCache-snoc cache_key id s.cache h fresh v.keyed)
      (λ i g. ground (
        arith,
        has_id-snoc cache_key id i s.cache,
        v.known i,
        length-append s.requests (new_request key ∷ []),
      ))
      (All-append IsUnsized s.requests (new_request key ∷ []) v.unsized (refl, tt))
