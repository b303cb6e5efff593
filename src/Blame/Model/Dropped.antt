-- ===== src/Blame/Model/Dropped.antt =====
-- extension/src/model/blameModel.ts: what an invalidation leaves in the cache, and which requests it stops.
use gitglasses.Base.{
  ◌&&◌, sym, ap, subst, ◌∙◌, ◌⊎◌, Bool-cases, Option-cases, get_elem?, update_at, text_eq,
  text_eq_iff, if◌then◌else◌, Option, Bool, List, Text, ℕ, zero, suc, refl, [], ◌∷◌, true, false,
  none, some, inl, inr, ◌≡◌, arith,
}
use gitglasses.Base.Maps.{lookup, remove_key, lookup-remove_key, lookup-remove_key_other}
use gitglasses.Blame.Keys.{affects_other_files_blame, BlameKey}
use gitglasses.Blame.Model.Cache.{
  invalidate_saved, invalidate, invalidate_path, in_repo, of_file, Request, BlameModel,
  stop_running, forget, remove, remove_where, key_passes,
}

abbrev pub flag_of : (Request → Bool) → Option Request → Bool
flag_of flag none = false
flag_of flag (some r) = flag r

abbrev pub cancelled_at : ℕ → List Request → Bool
cancelled_at id requests = flag_of (λ r. r.cancelled) (get_elem? requests id)

module _ (flag : Request → Bool) where
  pub flag_of-update_at :
      (f : Request → Request) (requests : List Request) (i j : ℕ)
      → ((r : Request) → flag (f r) ≡ flag r)
      → flag_of flag (get_elem? (update_at f requests i) j) ≡ flag_of flag (get_elem? requests j)
  flag_of-update_at f [] i j same = refl
  flag_of-update_at f (r ∷ rs) zero zero same = same r
  flag_of-update_at f (r ∷ rs) zero (suc j) same = refl
  flag_of-update_at f (r ∷ rs) (suc i) zero same = refl
  flag_of-update_at f (r ∷ rs) (suc i) (suc j) same = flag_of-update_at f rs i j same

key_passes-flag_of :
    (test : BlameKey → Bool) (o : Option Request) → key_passes test o ≡ flag_of (λ r. test r.key) o
key_passes-flag_of test none = refl
key_passes-flag_of test (some r) = refl

pub key_passes-remove :
    (test : BlameKey → Bool) (key : Text) (stop : Bool) (s : BlameModel) (id : ℕ)
    → key_passes test (get_elem? (remove key stop s).requests id)
      ≡ key_passes test (get_elem? s.requests id)
unfolding remove forget
key_passes-remove test key stop s id = elim (Option-cases (lookup key s.cache)) [
  | inl e ↦ rw e refl
  | inr (i, e) ↦ elim (Bool-cases stop) [
    | inl t ↦
        rw (e, t)
          (key_passes-flag_of test (get_elem? (update_at stop_running s.requests i) id)
            ∙ flag_of-update_at (λ r. test r.key) stop_running s.requests i id (λ r. ground arith)
            ∙ sym (key_passes-flag_of test (get_elem? s.requests id)))
    | inr t ↦ rw (e, t) refl
  ]
]

lookup-remove_key-some :
    (key other : Text) (cache : List (Text × ℕ)) (id : ℕ)
    → lookup other (remove_key key cache) ≡ some id
    → (lookup other cache ≡ some id) × (text_eq key other ≡ false)
lookup-remove_key-some key other cache id h = elim (Bool-cases (text_eq key other)) [
  | inl e ↦
      let same : key ≡ other = (text_eq_iff key other).0 e in
      let gone : lookup other (remove_key key cache) ≡ none =
        subst (λ k. lookup k (remove_key key cache) ≡ none) same (lookup-remove_key key cache) in
      cc (gone, h)
  | inr e ↦ (sym (lookup-remove_key_other key other cache e) ∙ h, e)
]

remove_key-missing :
    (key : Text) (cache : List (Text × ℕ)) → lookup key cache ≡ none → remove_key key cache ≡ cache
remove_key-missing key [] h = refl
remove_key-missing key ((k, i) ∷ cache) h = elim (Bool-cases (text_eq k key)) [
  | inl e ↦ cc (e, h)
  | inr e ↦
      let deeper : lookup key cache ≡ none = cc (e, h) in
      rw e (ap (◌∷◌ (k, i)) (remove_key-missing key cache deeper))
]

pub remove-cache :
    (key : Text) (stop : Bool) (s : BlameModel) → (remove key stop s).cache ≡ remove_key key s.cache
unfolding remove forget
remove-cache key stop s = elim (Option-cases (lookup key s.cache)) [
  | inl e ↦ rw (e, remove_key-missing key s.cache e) refl
  | inr (i, e) ↦ rw e refl
]

pub remove-lookup :
    (key other : Text) (stop : Bool) (s : BlameModel) (id : ℕ)
    → lookup other (remove key stop s).cache ≡ some id
    → (lookup other s.cache ≡ some id) × (text_eq key other ≡ false)
remove-lookup key other stop s id h =
    lookup-remove_key-some key other s.cache id
      (subst (λ c. lookup other c ≡ some id) (remove-cache key stop s) h)

-- What is cached after the removal is what fails the test, or is still to come.
abbrev Remaining : (BlameKey → Bool) → List (Text × ℕ) → BlameModel → Type 0
Remaining test pairs s =
    (key : Text) (id : ℕ)
    → lookup key s.cache ≡ some id
    → (key_passes test (get_elem? s.requests id) ≡ false) ⊎ (lookup key pairs ≡ some id)

Remaining-if :
    (test : BlameKey → Bool) (k : Text) (i : ℕ) (pairs : List (Text × ℕ)) (s : BlameModel)
    (b : Bool)
    → key_passes test (get_elem? s.requests i) ≡ b
    → Remaining test ((k, i) ∷ pairs) s
    → Remaining test pairs (if b then remove k true s else s)
Remaining-if test k i pairs s true passes h key id found =
    let (before, other) = remove-lookup k key true s id found in
    elim (h key id before) [
      | inl fails ↦ inl (key_passes-remove test k true s id ∙ fails)
      | inr to_come ↦ inr (cc (other, to_come))
    ]
Remaining-if test k i pairs s false fails h key id found = elim (h key id found) [
  | inl failed ↦ inl failed
  | inr to_come ↦ elim (Bool-cases (text_eq k key)) [
    | inl e ↦
        let same : i ≡ id = cc (e, to_come) in
        inl (subst (λ j. key_passes test (get_elem? s.requests j) ≡ false) same fails)
    | inr e ↦ inr (cc (e, to_come))
  ]
]

remove_where-Remaining :
    (test : BlameKey → Bool) (pairs : List (Text × ℕ)) (s : BlameModel)
    → Remaining test pairs s
    → Remaining test [] (remove_where test pairs s)
unfolding remove_where
remove_where-Remaining test [] s h = h
remove_where-Remaining test ((k, i) ∷ pairs) s h =
    let passes = key_passes test (get_elem? s.requests i) in
    remove_where-Remaining test pairs (if passes then remove k true s else s)
      (Remaining-if test k i pairs s passes refl h)

-- After the removal of the keys that pass a test, no entry of the cache has such a key.
pub remove_where-dropped :
    (test : BlameKey → Bool) (s : BlameModel) (key : Text) (id : ℕ)
    → lookup key (remove_where test s.cache s).cache ≡ some id
    → key_passes test (get_elem? (remove_where test s.cache s).requests id) ≡ false
remove_where-dropped test s key id h =
    elim (remove_where-Remaining test s.cache s (λ k i e. inr e) key id h) [
      | inl fails ↦ fails
      | inr e ↦ cc e
    ]

in_repo-of_file :
    (repo_id path : Text) (o : Option Request)
    → key_passes (in_repo (some repo_id)) o ≡ false
    → key_passes (of_file repo_id path) o ≡ false
in_repo-of_file repo_id path none h = refl
in_repo-of_file repo_id path (some r) h = ground arith

-- When a file has been saved, no entry of the cache is of that file, whatever version or revision it was asked for;
-- when the file decides how others are blamed, none is of its repository.
pub invalidate_saved-dropped :
    (lower : Text → Text) (repo_id path : Text) (s : BlameModel) (key : Text) (id : ℕ)
    → lookup key (invalidate_saved lower repo_id path s).cache ≡ some id
    → let found = get_elem? (invalidate_saved lower repo_id path s).requests id in
      (key_passes (of_file repo_id path) found ≡ false)
      × ((affects_other_files_blame lower path && key_passes (in_repo (some repo_id)) found)
          ≡ false)
unfolding invalidate_saved invalidate invalidate_path
invalidate_saved-dropped lower repo_id path s key id h =
    elim (Bool-cases (affects_other_files_blame lower path)) [
      | inl e ↦
          let same : invalidate_saved lower repo_id path s
              ≡ remove_where (in_repo (some repo_id)) s.cache s =
            rw e refl in
          let dropped =
            remove_where-dropped (in_repo (some repo_id)) s key id
              (subst (λ t. lookup key t.cache ≡ some id) same h) in
          rw (same, e)
            (
              in_repo-of_file repo_id path
                  (get_elem? (remove_where (in_repo (some repo_id)) s.cache s).requests id) dropped,
              dropped,
            )
      | inr e ↦
          let same : invalidate_saved lower repo_id path s
              ≡ remove_where (of_file repo_id path) s.cache s =
            rw e refl in
          let dropped =
            remove_where-dropped (of_file repo_id path) s key id
              (subst (λ t. lookup key t.cache ≡ some id) same h) in
          rw (same, e) (dropped, refl)
    ]
