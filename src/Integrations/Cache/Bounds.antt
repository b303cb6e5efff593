-- ===== src/Integrations/Cache/Bounds.antt =====
-- packages/integrations/src/cache.ts: the bound of the cache, and what a write is read back as.
use gitglasses.Base.{
  ltb, Bool-cases, ◌∙◌, ◌+◌, text_eq_refl, le→ltb, leb, if◌then◌else◌, ◌≤◌, ◌≢◌, length, Option,
  List, Text, ℕ, zero, suc, refl, [], ◌∷◌, false, none, some, inl, inr, ◌++◌, ◌≡◌, arith,
}
use gitglasses.Integrations.Cache.{if_fresh, TtlCache, Entry, store, get, evict, bounded}
use gitglasses.Base.Maps.{lookup-append, has_key-remove_key, remove_key, lookup, has_key}

module _ {A : Type 0} where
  length-evict : (n : ℕ) (es : List (Text × Entry A)) → length (evict n es) ≤ n
  unfolding evict
  length-evict n [] = omega arith
  length-evict n (e ∷ es) = ground (arith, length-evict n es)

  -- With a bound of at least one, the entry that is written last is not evicted.
  evict-last :
      (n : ℕ) (key : Text) (e : Entry A) (es : List (Text × Entry A))
      → 1 ≤ n
      → has_key key es ≡ false
      → lookup key (evict n (es ++ (key, e) ∷ [])) ≡ some e
  unfolding evict
  evict-last n key e [] h k = rw (le→ltb n 1 h, text_eq_refl key) refl
  evict-last n key e ((j, f) ∷ es) h k =
      elim (Bool-cases (ltb n (length ((j, f) ∷ es ++ (key, e) ∷ [])))) [
        | inl u ↦ rw u (evict-last n key e es h (ground arith))
        | inr u ↦
            rw u (lookup-append key ((j, f) ∷ es) ((key, e) ∷ []) k ∙ rw (text_eq_refl key) refl)
      ]

  -- A cache of at most so many entries still is one after every write.
  pub store-max_entries :
      (now ttl_ms max_entries : ℕ) (key : Text) (value : A) (c : TtlCache A)
      → c.max_entries ≡ some max_entries
      → length (store now key value ttl_ms c).entries ≤ max_entries
  unfolding store bounded
  store-max_entries now ttl_ms max_entries key value c h = rw h (length-evict max_entries _)

  absent : (key : Text) (m : List (Text × Entry A)) → has_key key (remove_key key m) ≡ false
  absent key m = rw (has_key-remove_key key key m, text_eq_refl key) (ground arith)

  lookup-bounded :
      (o : Option ℕ) (key : Text) (e : Entry A) (m : List (Text × Entry A))
      → o ≢ some 0
      → has_key key m ≡ false
      → lookup key (bounded o (m ++ (key, e) ∷ [])) ≡ some e
  unfolding bounded
  lookup-bounded none key e m h k =
      lookup-append key m ((key, e) ∷ []) k ∙ rw (text_eq_refl key) refl
  lookup-bounded (some zero) key e m h k = elim (h refl) [ ]
  lookup-bounded (some (suc n)) key e m h k = evict-last (suc n) key e m (omega arith) k

  -- What is written is read back until its time to live is over, and not from then on, unless the
  -- cache may hold no entry at all.
  pub get-store :
      (now later ttl_ms : ℕ) (key : Text) (value : A) (c : TtlCache A)
      → c.max_entries ≢ some 0
      → get later key (store now key value ttl_ms c)
        ≡ (if leb (now + ttl_ms) later then none else some value)
  unfolding get store if_fresh
  get-store now later ttl_ms key value c h =
      rw
        (lookup-bounded c.max_entries key
          (record { value = value; stored_at = now; ttl_ms = ttl_ms }) (remove_key key c.entries) h
          (absent key c.entries))
        refl
