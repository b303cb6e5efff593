-- ===== src/Blame/Model/Cache.antt =====
-- extension/src/model/blameModel.ts: the class `BlameModel`. A cache entry is a request, by the number of its stream: the
-- requests stay in `requests` when the cache forgets them, as their callers still hold them. A caller is a promise that
-- `join` returned for a token. What happens later (an answer, a failure, a token, the timer) is an operation.
use gitglasses.Base.{
  ◌-◌, ◌||◌, ◌&&◌, not, ltb, text_eq, length, get_elem?, update_at, if◌then◌else◌, Option, Bool,
  List, Text, ℕ, suc, [], ◌∷◌, true, false, none, some,
}
use gitglasses.Base.Int.{eq_ℤ, lt_ℤ}
use gitglasses.Base.Maps.{lookup, remove_key}
use gitglasses.Blame.Keys.{BlameKey, on_disk_version, affects_other_files_blame}

pub record Request : Type 0 where
  pub key : BlameKey
  pub bytes : ℕ
  pub cancelled : Bool
  pub settled : Bool
  pub waiters : ℕ
  pub pinned : Bool
  pub abandon_timer : Bool

pub record Caller : Type 0 where
  pub request : ℕ
  pub left : Bool

pub record BlameModel : Type 0 where
  pub max_bytes : ℕ
  pub max_entries : ℕ
  pub cache : List (Text × ℕ)
  pub requests : List Request
  pub callers : List Caller
  pub total_bytes : ℕ
  pub logged_failures : List Text
  pub log : List Text

abbrev pub new_model : ℕ → ℕ → BlameModel
new_model max_bytes max_entries = record {
  max_bytes = max_bytes;
  max_entries = max_entries;
  cache = [];
  requests = [];
  callers = [];
  total_bytes = 0;
  logged_failures = [];
  log = [];
}

abbrev pub number_of : (Request → ℕ) → Option Request → ℕ
number_of field none = 0
number_of field (some r) = field r

abbrev pub bytes_at : List Request → ℕ → ℕ
bytes_at requests id = number_of (λ r. r.bytes) (get_elem? requests id)

-- The engine's request is told to stop.
abbrev pub cancel : Request → Request
cancel r = record r { cancelled = true }

abbrev pub stop_running : Request → Request
stop_running r = if r.settled then r else cancel r

unfoldable pub forget : Text → Bool → Option ℕ → BlameModel → BlameModel
forget cache_key stop none s = s
forget cache_key stop (some id) s = record s {
  cache = remove_key cache_key s.cache;
  total_bytes = s.total_bytes - bytes_at s.requests id;
  requests = if stop then update_at stop_running s.requests id else s.requests;
}

unfoldable pub remove : Text → Bool → BlameModel → BlameModel
unfolding forget
remove cache_key stop s = forget cache_key stop (lookup cache_key s.cache) s

-- The loop of `evictToBudget`; the first pair of a `Map` is what `remove` takes out of it.
unfoldable pub evict : ℕ → ℕ → List Request → List (Text × ℕ) → ℕ → List (Text × ℕ) × ℕ
evict max_bytes max_entries requests [] total = ([], total)
evict max_bytes max_entries requests ((cache_key, id) ∷ cache) total =
    let rest = evict max_bytes max_entries requests cache (total - bytes_at requests id) in
    if ltb 1 (suc (length cache)) && (ltb max_entries (suc (length cache)) || ltb max_bytes total)
    then rest
    else ((cache_key, id) ∷ cache, total)

unfoldable pub evict_to_budget : BlameModel → BlameModel
unfolding evict
evict_to_budget s =
    let (cache, total) = evict s.max_bytes s.max_entries s.requests s.cache s.total_bytes in
    record s { cache = cache; total_bytes = total }

abbrev pub key_passes : (BlameKey → Bool) → Option Request → Bool
key_passes test none = false
key_passes test (some r) = test r.key

-- Removes the entries with such keys: the loop on the cache of `invalidate` and the like.
unfoldable pub remove_where : (BlameKey → Bool) → List (Text × ℕ) → BlameModel → BlameModel
unfolding remove
remove_where test [] s = s
remove_where test ((cache_key, id) ∷ cache) s =
    remove_where test cache
      (if key_passes test (get_elem? s.requests id) then remove cache_key true s else s)

abbrev pub in_repo : Option Text → BlameKey → Bool
in_repo none key = true
in_repo (some repo_id) key = text_eq key.repo_id repo_id

abbrev pub of_file : Text → Text → BlameKey → Bool
of_file repo_id path key = text_eq key.repo_id repo_id && text_eq key.path path

abbrev pub is_working_tree : BlameKey → Bool
is_working_tree key = elim key.rev [ none ↦ true | some rev ↦ false ]

-- A buffer version that `key` supersedes.
abbrev pub is_superseded_by : BlameKey → BlameKey → Bool
is_superseded_by key other =
    of_file key.repo_id key.path other
    && is_working_tree other
    && not (eq_ℤ other.version on_disk_version)
    && (eq_ℤ key.version on_disk_version || lt_ℤ other.version key.version)

unfoldable pub invalidate : Option Text → BlameModel → BlameModel
unfolding remove_where
invalidate repo_id s = remove_where (in_repo repo_id) s.cache s

unfoldable pub invalidate_path : Text → Text → BlameModel → BlameModel
unfolding remove_where
invalidate_path repo_id path s = remove_where (of_file repo_id path) s.cache s

unfoldable pub invalidate_saved : (Text → Text) → Text → Text → BlameModel → BlameModel
unfolding invalidate invalidate_path
invalidate_saved lower repo_id path s =
    if affects_other_files_blame lower path
    then invalidate (some repo_id) s
    else invalidate_path repo_id path s

unfoldable pub evict_superseded : BlameKey → BlameModel → BlameModel
unfolding remove_where
evict_superseded key s =
    if is_working_tree key then remove_where (is_superseded_by key) s.cache s else s
