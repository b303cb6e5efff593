-- ===== src/Integrations/Cache.antt =====
-- packages/integrations/src/cache.ts: `TtlCache`. A fetch is the number of its start; the promise's
-- continuation is an operation of its own (`fetched`, `fetch_failed`), with the time of its call.
pub mod Bounds
pub mod Superseded
use gitglasses.Base.Maps.{lookup, set_key, remove_key}
use gitglasses.Base.{
  ◌+◌, length, ltb, leb, ◌==◌, if◌then◌else◌, Text, Option, List, Bool, ℕ, zero, suc, refl, [], ◌∷◌,
  true, false, none, some, inl, inr, ◌++◌, ◌≡◌, arith,
}

pub record Entry (A : Type 0) : Type 0 where
  pub value : A
  pub stored_at : ℕ
  pub ttl_ms : ℕ

pub record TtlCache (A : Type 0) : Type 0 where
  pub max_entries : Option ℕ
  pub entries : List (Text × Entry A)
  pub inflight : List (Text × ℕ)
  pub fetches : ℕ

-- What a read does: a value at once (stale or not), or the fetch that it waits for.
pub data Read (A : Type 0) : Type 0 where
  cached : A → Bool → Read A
  waits_for : ℕ → Read A

pub is_fetch : ℕ → Option ℕ → Bool
is_fetch fetch none = false
is_fetch fetch (some f) = f == fetch

module _ {A : Type 0} where
  if_fresh : ℕ → Option (Entry A) → Option A
  if_fresh now none = none
  if_fresh now (some e) = if leb (e.stored_at + e.ttl_ms) now then none else some e.value

  pub get : ℕ → Text → TtlCache A → Option A
  unfolding if_fresh
  get now key c = if_fresh now (lookup key c.entries)

  -- The loop of `store`, on the entries from the oldest.
  pub evict : ℕ → List (Text × Entry A) → List (Text × Entry A)
  evict max_entries [] = []
  evict max_entries (e ∷ es) =
      let rest = evict max_entries es in if ltb max_entries (length (e ∷ es)) then rest else e ∷ es

  pub bounded : Option ℕ → List (Text × Entry A) → List (Text × Entry A)
  unfolding evict
  bounded none es = es
  bounded (some max_entries) es = evict max_entries es

  pub store : ℕ → Text → A → ℕ → TtlCache A → TtlCache A
  unfolding bounded
  store now key value ttl_ms c = record c {
    entries = bounded c.max_entries (
        remove_key key c.entries
        ++ (key, record { value = value; stored_at = now; ttl_ms = ttl_ms }) ∷ []);
  }

  pub delete : Text → TtlCache A → TtlCache A
  delete key c = record c {
    entries = remove_key key c.entries;
    inflight = remove_key key c.inflight;
  }

  unfoldable pub clear : TtlCache A → TtlCache A
  clear c = record c { entries = []; inflight = [] }

  shared : Option ℕ → Text → TtlCache A → TtlCache A × ℕ
  shared (some fetch) key c = (c, fetch)
  shared none key c =
      (record c { inflight = set_key key c.fetches c.inflight; fetches = suc c.fetches }, c.fetches)

  pub refresh : Text → TtlCache A → TtlCache A × ℕ
  unfolding shared
  refresh key c = shared (lookup key c.inflight) key c

  read_entry : ℕ → Option (Entry A) → Text → ℕ → ℕ → TtlCache A → TtlCache A × Read A
  unfolding refresh
  read_entry now none key ttl_ms stale_ms c =
      let (c', fetch) = refresh key c in (c', waits_for fetch)
  read_entry now (some e) key ttl_ms stale_ms c =
      let (c', fetch) = refresh key c in
      if ltb now (e.stored_at + ttl_ms)
      then (c, cached e.value false)
      else if ltb now (e.stored_at + (ttl_ms + stale_ms))
      then (c', cached e.value true)
      else (c', waits_for fetch)

  pub get_or_fetch : ℕ → Text → ℕ → ℕ → TtlCache A → TtlCache A × Read A
  unfolding read_entry
  get_or_fetch now key ttl_ms stale_ms c =
      read_entry now (lookup key c.entries) key ttl_ms stale_ms c

  pub owns : Text → ℕ → TtlCache A → Bool
  unfolding is_fetch
  owns key fetch c = is_fetch fetch (lookup key c.inflight)

  release : Text → ℕ → TtlCache A → TtlCache A
  unfolding owns
  release key fetch c =
      let released = record c { inflight = remove_key key c.inflight } in
      if owns key fetch c then released else c

  -- The fetcher of `fetch` resolves with a value, or rejects.
  pub fetched : ℕ → Text → ℕ → A → ℕ → TtlCache A → TtlCache A
  unfolding release owns store
  fetched now key fetch value ttl_ms c =
      let stored = store now key value ttl_ms c in
      release key fetch (if owns key fetch c then stored else c)

  unfoldable pub fetch_failed : Text → ℕ → TtlCache A → TtlCache A
  unfolding release
  fetch_failed key fetch c = release key fetch c

-- What is done with a cache, in any order: the methods, each at its time, and the ends of fetches.
pub data Operation (A : Type 0) : Type 0 where
  reads : (now : ℕ) (key : Text) (ttl_ms stale_ms : ℕ) → Operation A
  sets : (now : ℕ) (key : Text) (value : A) (ttl_ms : ℕ) → Operation A
  deletes : (key : Text) → Operation A
  clears : Operation A
  resolves : (now : ℕ) (key : Text) (fetch : ℕ) (value : A) (ttl_ms : ℕ) → Operation A
  rejects : (key : Text) (fetch : ℕ) → Operation A

module _ {A : Type 0} where
  pub operate : Operation A → TtlCache A → TtlCache A
  unfolding get_or_fetch store delete clear fetched fetch_failed
  operate (reads now key ttl_ms stale_ms) c = (get_or_fetch now key ttl_ms stale_ms c).0
  operate (sets now key value ttl_ms) c = store now key value ttl_ms c
  operate (deletes key) c = delete key c
  operate clears c = clear c
  operate (resolves now key fetch value ttl_ms) c = fetched now key fetch value ttl_ms c
  operate (rejects key fetch) c = fetch_failed key fetch c

  pub operate_all : List (Operation A) → TtlCache A → TtlCache A
  unfolding operate
  operate_all [] c = c
  operate_all (operation ∷ operations) c = operate_all operations (operate operation c)
