-- ===== src/Blame/Model/Requests.antt =====
-- extension/src/model/blameModel.ts: the store of the requests and the cache, and the bytes that the cache holds.
use gitglasses.Base.{
  none, ap, subst, ◌+◌, ◌||◌, ◌==◌, ==_iff, Bool-cases, All, text_eq, text_eq_iff, length,
  get_elem?, update_at, Bool, List, Text, ℕ, zero, suc, refl, [], ◌∷◌, true, false, some, inl, inr,
  ◌++◌, ◌≡◌, arith,
}
use gitglasses.Base.Maps.{lookup, remove_key, has_key, has_key-remove_key}
use gitglasses.Blame.Model.{measure}
use gitglasses.Blame.Model.Cache.{number_of, Request, bytes_at}

abbrev pub held : List Request → List (Text × ℕ) → ℕ
held requests [] = 0
held requests ((cache_key, id) ∷ cache) = bytes_at requests id + held requests cache

abbrev pub has_id : ℕ → List (Text × ℕ) → Bool
has_id id [] = false
has_id id ((cache_key, i) ∷ cache) = i == id || has_id id cache

-- No key and no request stands twice.
abbrev pub IsCache : List (Text × ℕ) → Type 0
IsCache [] = Unit
IsCache ((cache_key, id) ∷ cache) =
    (has_key cache_key cache ≡ false) × (has_id id cache ≡ false) × IsCache cache

pub length-update_at {ℓ} :
    {A : Type ℓ} (f : A → A) (xs : List A) (i : ℕ) → length (update_at f xs i) ≡ length xs
length-update_at f [] i = refl
length-update_at f (x ∷ xs) zero = refl
length-update_at f (x ∷ xs) (suc i) = ap suc (length-update_at f xs i)

pub All-update_at {ℓ κ} :
    {A : Type ℓ} (P : A → Type κ) (f : A → A) (xs : List A) (i : ℕ)
    → ((x : A) → P x → P (f x))
    → All P xs
    → All P (update_at f xs i)
All-update_at P f [] i k h = h
All-update_at P f (x ∷ xs) zero k h = (k x h.0, h.1)
All-update_at P f (x ∷ xs) (suc i) k h = (h.0, All-update_at P f xs i k h.1)

pub get_elem?-update_at {ℓ} :
    {A : Type ℓ} (f : A → A) (xs : List A) (i : ℕ) (x : A)
    → get_elem? xs i ≡ some x
    → get_elem? (update_at f xs i) i ≡ some (f x)
get_elem?-update_at f [] i x h = cc
get_elem?-update_at f (y ∷ xs) zero x h = let same : y ≡ x = cc h in ap (λ z. some (f z)) same
get_elem?-update_at f (y ∷ xs) (suc i) x h = get_elem?-update_at f xs i x h

pub update_at-none :
    {A : Type 0} (f : A → A) (xs : List A) (i : ℕ) → get_elem? xs i ≡ none → update_at f xs i ≡ xs
update_at-none f [] i h = refl
update_at-none f (x ∷ xs) zero h = cc h
update_at-none f (x ∷ xs) (suc i) h = ap (◌∷◌ x) (update_at-none f xs i h)

pub get_elem?-update_at_other {ℓ} :
    {A : Type ℓ} (f : A → A) (xs : List A) (i j : ℕ)
    → (i == j) ≡ false
    → get_elem? (update_at f xs i) j ≡ get_elem? xs j
get_elem?-update_at_other f [] i j h = refl
get_elem?-update_at_other f (y ∷ xs) zero zero h = cc h
get_elem?-update_at_other f (y ∷ xs) zero (suc j) h = refl
get_elem?-update_at_other f (y ∷ xs) (suc i) zero h = refl
get_elem?-update_at_other f (y ∷ xs) (suc i) (suc j) h =
    get_elem?-update_at_other f xs i j (ground arith)

module _ (field : Request → ℕ) where
  -- A change of a request that leaves a field alone.
  pub number_of-update_at :
      (f : Request → Request) (requests : List Request) (i j : ℕ)
      → ((r : Request) → field (f r) ≡ field r)
      → number_of field (get_elem? (update_at f requests i) j)
        ≡ number_of field (get_elem? requests j)
  number_of-update_at f [] i j same = refl
  number_of-update_at f (r ∷ rs) zero zero same = same r
  number_of-update_at f (r ∷ rs) zero (suc j) same = refl
  number_of-update_at f (r ∷ rs) (suc i) zero same = refl
  number_of-update_at f (r ∷ rs) (suc i) (suc j) same = number_of-update_at f rs i j same

  -- A new request with nothing in the field.
  pub number_of-snoc :
      (requests : List Request) (r : Request) (j : ℕ)
      → field r ≡ 0
      → number_of field (get_elem? (requests ++ r ∷ []) j) ≡ number_of field (get_elem? requests j)
  number_of-snoc [] r zero h = h
  number_of-snoc [] r (suc j) h = refl
  number_of-snoc (q ∷ requests) r zero h = refl
  number_of-snoc (q ∷ requests) r (suc j) h = number_of-snoc requests r j h

pub held_ext :
    (a b : List Request) (cache : List (Text × ℕ))
    → ((j : ℕ) → bytes_at a j ≡ bytes_at b j)
    → held a cache ≡ held b cache
held_ext a b [] same = refl
held_ext a b ((k, i) ∷ cache) same = omega (arith, same i, held_ext a b cache same)

pub held-append :
    (requests : List Request) (c d : List (Text × ℕ))
    → held requests (c ++ d) ≡ held requests c + held requests d
held-append requests [] d = omega arith
held-append requests ((k, i) ∷ c) d = omega (arith, held-append requests c d)

remove_key-absent :
    (key : Text) (cache : List (Text × ℕ))
    → has_key key cache ≡ false
    → remove_key key cache ≡ cache
remove_key-absent key [] h = refl
remove_key-absent key ((k, i) ∷ cache) h =
    ground (arith, remove_key-absent key cache, text_eq_iff k key)

pub held-remove_key :
    (requests : List Request) (key : Text) (cache : List (Text × ℕ)) (id : ℕ)
    → IsCache cache
    → lookup key cache ≡ some id
    → held requests (remove_key key cache) + bytes_at requests id ≡ held requests cache
held-remove_key requests key [] id v h = cc
held-remove_key requests key ((k, i) ∷ cache) id v h = elim (Bool-cases (text_eq k key)) [
  | inl e ↦
      let here : k ≡ key = (text_eq_iff k key).0 e in
      let same : i ≡ id = cc (e, h) in
      let gone : remove_key key cache ≡ cache =
        remove_key-absent key cache (subst (λ t. has_key t cache ≡ false) here v.0) in
      rw (e, gone, same) (omega arith)
  | inr e ↦
      let deeper : lookup key cache ≡ some id = cc (e, h) in
      rw e (omega (arith, held-remove_key requests key cache id v.2 deeper))
]

pub has_id-remove_key :
    (id : ℕ) (key : Text) (cache : List (Text × ℕ))
    → has_id id cache ≡ false
    → has_id id (remove_key key cache) ≡ false
has_id-remove_key id key [] h = refl
has_id-remove_key id key ((k, i) ∷ cache) h = ground (arith, has_id-remove_key id key cache)

pub IsCache-remove_key :
    (key : Text) (cache : List (Text × ℕ)) → IsCache cache → IsCache (remove_key key cache)
IsCache-remove_key key [] v = tt
IsCache-remove_key key ((k, i) ∷ cache) v = ground (
  arith,
  IsCache-remove_key key cache v.2,
  has_key-remove_key key k cache,
  has_id-remove_key i key cache,
)

pub has_id-lookup :
    (key : Text) (cache : List (Text × ℕ)) (id : ℕ)
    → lookup key cache ≡ some id
    → has_id id cache ≡ true
has_id-lookup key [] id h = cc
has_id-lookup key ((k, i) ∷ cache) id h = elim (Bool-cases (text_eq k key)) [
  | inl e ↦ let same : i ≡ id = cc (e, h) in ground arith
  | inr e ↦
      let deeper : lookup key cache ≡ some id = cc (e, h) in
      ground (arith, has_id-lookup key cache id deeper)
]

-- The removed pair's request is in the cache no more.
pub has_id-removed :
    (key : Text) (cache : List (Text × ℕ)) (id : ℕ)
    → IsCache cache
    → lookup key cache ≡ some id
    → has_id id (remove_key key cache) ≡ false
has_id-removed key [] id v h = cc
has_id-removed key ((k, i) ∷ cache) id v h = elim (Bool-cases (text_eq k key)) [
  | inl e ↦
      let here : k ≡ key = (text_eq_iff k key).0 e in
      let same : i ≡ id = cc (e, h) in
      let gone : remove_key key cache ≡ cache =
        remove_key-absent key cache (subst (λ t. has_key t cache ≡ false) here v.0) in
      rw (e, gone) (subst (λ j. has_id j cache ≡ false) same v.1)
  | inr e ↦
      let deeper : lookup key cache ≡ some id = cc (e, h) in
      rw e (
        ground (
          arith,
          has_id-removed key cache id v.2 deeper,
          has_id-lookup key cache id deeper,
          ==_iff i id,
        ))
]

pub held-measure_other :
    (requests : List Request) (id bytes : ℕ) (cache : List (Text × ℕ))
    → has_id id cache ≡ false
    → held (update_at (measure bytes) requests id) cache ≡ held requests cache
held-measure_other requests id bytes [] h = refl
held-measure_other requests id bytes ((k, i) ∷ cache) h =
    let differ : (id == i) ≡ false = ground arith in
    rw (get_elem?-update_at_other (measure bytes) requests id i differ)
      (omega (arith, held-measure_other requests id bytes cache (ground arith)))

-- A request in the cache is held once.
pub held-measure :
    (requests : List Request) (id bytes : ℕ) (r : Request) (key : Text) (cache : List (Text × ℕ))
    → get_elem? requests id ≡ some r
    → r.bytes ≡ 0
    → IsCache cache
    → lookup key cache ≡ some id
    → held (update_at (measure bytes) requests id) cache ≡ held requests cache + bytes
held-measure requests id bytes r key [] g z v h = cc
held-measure requests id bytes r key ((k, i) ∷ cache) g z v h = elim (Bool-cases (text_eq k key)) [
  | inl e ↦
      let same : i ≡ id = cc (e, h) in
      let others =
        held-measure_other requests id bytes cache (subst (λ j. has_id j cache ≡ false) same v.1) in
      rw (same, get_elem?-update_at (measure bytes) requests id r g, g) (omega (arith, z, others))
  | inr e ↦
      let deeper : lookup key cache ≡ some id = cc (e, h) in
      let differ : (id == i) ≡ false =
        ground (arith, has_id-lookup key cache id deeper, ==_iff i id) in
      rw (get_elem?-update_at_other (measure bytes) requests id i differ)
        (omega (arith, held-measure requests id bytes r key cache g z v.2 deeper))
]
