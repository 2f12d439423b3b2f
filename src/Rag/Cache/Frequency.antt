-- ===== src/Rag/Cache/Frequency.antt =====
-- What the least frequently used strategy of crates/gola-core/src/rag/cache.rs does to a new entry.
use gola.Prelude.{
  ℕ, suc, ◌-◌, ◌≤◌, ◌≡◌, refl, ap, ◌∙◌, true, false, none, [], ◌∷◌, ◌++◌, arith, length, Every,
  Every-append, drop, Text, same, text_key, lookup, put, lookup-put, leb,
}
use gola.Rag.Cache.{
  lfu, CacheEntry, Entries, InMemoryEmbeddingCache, new_entry, insert_entry, sort_entries, put_back,
  evict_if_needed, put_embedding,
}
use gola.Rag.Cache.Evict.{Every-sort_entries}

module _ {E : Type 0} where
  -- An entry of another key that has been read since it was put.
  abbrev pub IsRead : Text → Text × CacheEntry E → Type 0
  IsRead k x = (2 ≤ x.1.access_count) × (same x.0 k ≡ false)

  insert_entry-new :
      (k : Text) (e : E) (now : ℕ) (xs : Entries E)
      → Every (IsRead k) xs
      → insert_entry lfu (k, new_entry e now) xs ≡ (k, new_entry e now) ∷ xs
  unfolding insert_entry
  insert_entry-new k e now [] h = refl
  insert_entry-new k e now (x ∷ xs) h =
      let least : leb 1 x.1.access_count ≡ true = ground (arith, h.0.0) in rw least refl

  insert_entry-behind :
      (x n : Text × CacheEntry E) (xs : Entries E)
      → leb x.1.access_count n.1.access_count ≡ false
      → insert_entry lfu x (n ∷ xs) ≡ n ∷ insert_entry lfu x xs
  unfolding insert_entry
  insert_entry-behind x n xs h = rw h refl

  sort_entries-new :
      (k : Text) (e : E) (now : ℕ) (xs ys : Entries E)
      → Every (IsRead k) xs
      → Every (IsRead k) ys
      → sort_entries lfu (xs ++ (k, new_entry e now) ∷ ys)
        ≡ (k, new_entry e now) ∷ sort_entries lfu (xs ++ ys)
  unfolding sort_entries
  sort_entries-new k e now [] ys h r =
      insert_entry-new k e now (sort_entries lfu ys) (Every-sort_entries (IsRead k) lfu ys r)
  sort_entries-new k e now (x ∷ xs) ys h r =
      let more : leb x.1.access_count 1 ≡ false = ground (arith, h.0.0) in
      ap (insert_entry lfu x) (sort_entries-new k e now xs ys h.1 r)
      ∙ insert_entry-behind x (k, new_entry e now) (sort_entries lfu (xs ++ ys)) more

  lookup-nil : (k : Text) → lookup {V = CacheEntry E} k [] ≡ none
  unfolding lookup
  lookup-nil k = refl

  lookup-put_back :
      (k : Text) (xs m : Entries E)
      → Every (IsRead k) xs
      → lookup k m ≡ none
      → lookup k (put_back xs m) ≡ none
  unfolding put_back
  lookup-put_back k [] m h e = e
  lookup-put_back k ((j, entry) ∷ xs) m h e =
      lookup-put_back k xs (put j entry m) h.1 (lookup-put j k entry m ∙ rw h.0.1 e)

  module _ (order : Entries E → Entries E) where
    evicted :
        (c : InMemoryEmbeddingCache E) (now : ℕ) (k : Text) (e : E)
        → length (put k (new_entry e now) c.cache) ≡ suc c.config.max_size
        → (put_embedding order c now k e).cache
          ≡ put_back
              (drop 1
                (sort_entries c.config.eviction_strategy (order (put k (new_entry e now) c.cache))))
              []
    unfolding put_embedding evict_if_needed
    evicted c now k e full =
        let large : leb (length (put k (new_entry e now) c.cache)) c.config.max_size ≡ false =
          ground (arith, full) in
        let one : length (put k (new_entry e now) c.cache) - c.config.max_size ≡ 1 =
          omega (arith, full) in
        rw (large, one) refl

    -- When `put` makes a cache one entry too large under the least frequently used strategy, and
    -- every other entry has been read since it was put, the entry that is evicted is the new one: its
    -- key is not found in the cache that `put` leaves.
    pub lookup-put_embedding :
        (c : InMemoryEmbeddingCache E) (now : ℕ) (k : Text) (e : E) (xs ys : Entries E)
        → c.config.eviction_strategy ≡ lfu
        → length (put k (new_entry e now) c.cache) ≡ suc c.config.max_size
        → order (put k (new_entry e now) c.cache) ≡ xs ++ (k, new_entry e now) ∷ ys
        → Every (IsRead k) xs
        → Every (IsRead k) ys
        → lookup k (put_embedding order c now k e).cache ≡ none
    lookup-put_embedding c now k e xs ys s full ordered h r =
        ap (lookup k) (
          evicted c now k e full
          ∙ ap
              (λ st.
                put_back (drop 1 (sort_entries st (order (put k (new_entry e now) c.cache)))) [])
              s
          ∙ ap (λ l. put_back (drop 1 (sort_entries lfu l)) []) ordered
          ∙ ap (λ l. put_back (drop 1 l) []) (sort_entries-new k e now xs ys h r))
        ∙ lookup-put_back k (sort_entries lfu (xs ++ ys)) []
            (Every-sort_entries (IsRead k) lfu (xs ++ ys) (Every-append (IsRead k) xs ys h r))
            (lookup-nil k)
