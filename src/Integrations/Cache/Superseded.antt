-- ===== src/Integrations/Cache/Superseded.antt =====
-- packages/integrations/src/cache.ts: a fetch that a deletion superseded does nothing any more.
use gitglasses.Base.{
  ◌+◌, Text, Option, List, ℕ, [], ◌∷◌, false, none, some, ◌≡◌, ◌<◌, ◌==◌, refl, sym, subst, arith,
  ltb, Bool-cases, Option-cases, inl, inr, text_eq, text_eq_iff,
}
use gitglasses.Base.Maps.{
  lookup, set_key, remove_key, lookup-set_key, lookup-set_key_other, lookup-remove_key,
  lookup-remove_key_other,
}
use gitglasses.Integrations.Cache.{
  TtlCache, Entry, Operation, reads, sets, deletes, clears, resolves, rejects, operate, operate_all,
  delete, clear, store, get_or_fetch, read_entry, refresh, shared, fetched, fetch_failed, release,
  owns, is_fetch,
}

-- A fetch that is not the one in flight for its key changes nothing when it ends.
pub fetched-superseded_at :
    {A : Type 0} (now ttl_ms fetch : ℕ) (key : Text) (value : A) (c : TtlCache A)
    → owns key fetch c ≡ false
    → (fetched now key fetch value ttl_ms c ≡ c) × (fetch_failed key fetch c ≡ c)
unfolding fetched fetch_failed release
fetched-superseded_at now ttl_ms fetch key value c h = rw h (rw h refl, refl)

module _ {A : Type 0} (key : Text) (fetch : ℕ) where
  -- The fetch has been started, and is not in flight for the key.
  abbrev pub IsSuperseded : TtlCache A → Type 0
  IsSuperseded c = (fetch < c.fetches) × (is_fetch fetch (lookup key c.inflight) ≡ false)

  remove-IsSuperseded :
      (other : Text) (c : TtlCache A)
      → IsSuperseded c
      → is_fetch fetch (lookup key (remove_key other c.inflight)) ≡ false
  unfolding is_fetch
  remove-IsSuperseded other c h = elim (Bool-cases (text_eq other key)) [
    | inl e ↦ rw (sym ((text_eq_iff other key).0 e)) (rw (lookup-remove_key other c.inflight) refl)
    | inr e ↦ rw (lookup-remove_key_other other key c.inflight e) h.1
  ]

  refresh-IsSuperseded :
      (other : Text) (c : TtlCache A) → IsSuperseded c → IsSuperseded (refresh other c).0
  unfolding refresh shared is_fetch
  refresh-IsSuperseded other c h = elim (Option-cases (lookup other c.inflight)) [
    | inr (f, e) ↦ rw e h
    | inl e ↦ elim (Bool-cases (text_eq other key)) [
      | inl same ↦
          let newer : (c.fetches == fetch) ≡ false = ground (arith, h.0) in
          let found : lookup key (set_key other c.fetches c.inflight) ≡ some c.fetches =
            subst (λ k. lookup k (set_key other c.fetches c.inflight) ≡ some c.fetches)
              ((text_eq_iff other key).0 same) (lookup-set_key other c.fetches c.inflight) in
          rw e (omega (arith, h.0), rw found newer)
      | inr differs ↦
          rw e (
            omega (arith, h.0),
            rw (lookup-set_key_other other key c.fetches c.inflight differs) h.1,
          )
    ]
  ]

  read-IsSuperseded :
      (now : ℕ) (o : Option (Entry A)) (other : Text) (ttl_ms stale_ms : ℕ) (c : TtlCache A)
      → IsSuperseded c
      → IsSuperseded (read_entry now o other ttl_ms stale_ms c).0
  unfolding read_entry
  read-IsSuperseded now none other ttl_ms stale_ms c h = refresh-IsSuperseded other c h
  read-IsSuperseded now (some e) other ttl_ms stale_ms c h =
      elim (Bool-cases (ltb now (e.stored_at + ttl_ms))) [
        | inl fresh ↦ rw fresh h
        | inr old ↦ elim (Bool-cases (ltb now (e.stored_at + (ttl_ms + stale_ms)))) [
          | inl stale ↦ rw (old, stale) (refresh-IsSuperseded other c h)
          | inr gone ↦ rw (old, gone) (refresh-IsSuperseded other c h)
        ]
      ]

  release-IsSuperseded :
      (other : Text) (ended : ℕ) (c : TtlCache A)
      → IsSuperseded c
      → IsSuperseded (release other ended c)
  unfolding release
  release-IsSuperseded other ended c h = elim (Bool-cases (owns other ended c)) [
    | inl e ↦ rw e (h.0, remove-IsSuperseded other c h)
    | inr e ↦ rw e h
  ]

  operate-IsSuperseded :
      (operation : Operation A) (c : TtlCache A)
      → IsSuperseded c
      → IsSuperseded (operate operation c)
  unfolding operate get_or_fetch store delete clear fetched fetch_failed is_fetch
  operate-IsSuperseded (reads now other ttl_ms stale_ms) c h =
      read-IsSuperseded now (lookup other c.entries) other ttl_ms stale_ms c h
  operate-IsSuperseded (sets now other value ttl_ms) c h = h
  operate-IsSuperseded (deletes other) c h = (h.0, remove-IsSuperseded other c h)
  operate-IsSuperseded clears c h = (h.0, refl)
  operate-IsSuperseded (resolves now other ended value ttl_ms) c h =
      elim (Bool-cases (owns other ended c)) [
        | inl e ↦ rw e (release-IsSuperseded other ended (store now other value ttl_ms c) h)
        | inr e ↦ rw e (release-IsSuperseded other ended c h)
      ]
  operate-IsSuperseded (rejects other ended) c h = release-IsSuperseded other ended c h

  operate_all-IsSuperseded :
      (operations : List (Operation A)) (c : TtlCache A)
      → IsSuperseded c
      → IsSuperseded (operate_all operations c)
  unfolding operate_all
  operate_all-IsSuperseded [] c h = h
  operate_all-IsSuperseded (operation ∷ operations) c h =
      operate_all-IsSuperseded operations (operate operation c) (operate-IsSuperseded operation c h)

-- A fetch that was started before its key was deleted changes nothing when it resolves or rejects after the deletion,
-- whatever reads, writes, deletions and ends of fetches there are in between: neither the entries nor a newer fetch of the
-- key are touched.
pub fetched-superseded :
    {A : Type 0} (operations : List (Operation A)) (now ttl_ms fetch : ℕ) (key : Text) (value : A)
    (c : TtlCache A)
    → fetch < c.fetches
    → let c' = operate_all operations (delete key c) in
      (fetched now key fetch value ttl_ms c' ≡ c') × (fetch_failed key fetch c' ≡ c')
unfolding delete owns is_fetch
fetched-superseded operations now ttl_ms fetch key value c h =
    let start : IsSuperseded key fetch (delete key c) =
      (h, rw (lookup-remove_key key c.inflight) refl) in
    fetched-superseded_at now ttl_ms fetch key value (operate_all operations (delete key c))
      (operate_all-IsSuperseded key fetch operations (delete key c) start).1
