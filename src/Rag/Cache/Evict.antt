-- ===== src/Rag/Cache/Evict.antt =====
-- What eviction keeps.
use gola.Prelude.{
  ℕ, zero, suc, ◌+◌, ◌-◌, ◌≤◌, ◌<◌, ◌≡◌, refl, ap, ◌∙◌, true, false, [], ◌∷◌, ◌++◌, arith, length,
  take, take-append-drop, length-take, Every, Bool-cases, inl, inr, drop, length-drop, Text,
  text_key, put,
}
use gola.Rag.Cache.{
  EvictionStrategy, lru, fifo, lfu, CacheEntry, Entries, InMemoryEmbeddingCache, new_entry, key_le,
  insert_entry, sort_entries, put_back, evict_if_needed, put_embedding,
}

module _ {E : Type 0} where
  length-put-le :
      (k : Text) (e : CacheEntry E) (m : Entries E) → length (put k e m) ≤ suc (length m)
  unfolding put
  length-put-le k e [] = omega arith
  length-put-le k e ((j, d) ∷ m) = ground (arith, length-put-le k e m)

  length-put_back-le : (es m : Entries E) → length (put_back es m) ≤ length es + length m
  unfolding put_back
  length-put_back-le [] m = omega arith
  length-put_back-le ((k, e) ∷ es) m =
      omega (arith, length-put_back-le es (put k e m), length-put-le k e m)

  length-insert_entry :
      (s : EvictionStrategy) (x : Text × CacheEntry E) (ys : Entries E)
      → length (insert_entry s x ys) ≡ suc (length ys)
  unfolding insert_entry
  length-insert_entry s x [] = refl
  length-insert_entry s x (y ∷ ys) = ground (arith, length-insert_entry s x ys)

  length-sort_entries :
      (s : EvictionStrategy) (xs : Entries E) → length (sort_entries s xs) ≡ length xs
  unfolding sort_entries
  length-sort_entries s [] = refl
  length-sort_entries s (x ∷ xs) =
      length-insert_entry s x (sort_entries s xs) ∙ ap suc (length-sort_entries s xs)

  -- `x` sorts before every entry of the list, or with it.
  abbrev pub Least : EvictionStrategy → CacheEntry E → Entries E → Type 0
  Least s x = Every (λ y. key_le s x y.1 ≡ true)

  abbrev pub IsSorted : EvictionStrategy → Entries E → Type 0
  IsSorted s [] = Unit {0}
  IsSorted s (x ∷ xs) = Least s x.1 xs × IsSorted s xs

  -- Every entry of the first list sorts before every entry of the second, or with it.
  abbrev pub Precedes : EvictionStrategy → Entries E → Entries E → Type 0
  Precedes s xs ys = Every (λ x. Least s x.1 ys) xs

  key_le_total :
      (s : EvictionStrategy) (x y : CacheEntry E) → key_le s x y ≡ false → key_le s y x ≡ true
  key_le_total lru x y h = ground arith
  key_le_total fifo x y h = ground arith
  key_le_total lfu x y h = ground arith

  key_le_trans :
      (s : EvictionStrategy) (x y z : CacheEntry E)
      → key_le s x y ≡ true
      → key_le s y z ≡ true
      → key_le s x z ≡ true
  key_le_trans lru x y z h k = ground arith
  key_le_trans fifo x y z h k = ground arith
  key_le_trans lfu x y z h k = ground arith

  Least-trans :
      (s : EvictionStrategy) (x y : CacheEntry E) (zs : Entries E)
      → key_le s x y ≡ true
      → Least s y zs
      → Least s x zs
  Least-trans s x y [] h k = tt
  Least-trans s x y (z ∷ zs) h k = (key_le_trans s x y z.1 h k.0, Least-trans s x y zs h k.1)

  Every-insert_entry :
      (P : Text × CacheEntry E → Type 0) (s : EvictionStrategy) (x : Text × CacheEntry E)
      (ys : Entries E)
      → P x
      → Every P ys
      → Every P (insert_entry s x ys)
  unfolding insert_entry
  Every-insert_entry P s x [] h k = (h, tt)
  Every-insert_entry P s x (y ∷ ys) h k = elim (Bool-cases (key_le s x.1 y.1)) [
    | inl e ↦ rw e (h, k)
    | inr e ↦ rw e (k.0, Every-insert_entry P s x ys h k.1)
  ]

  pub Every-sort_entries :
      (P : Text × CacheEntry E → Type 0) (s : EvictionStrategy) (xs : Entries E)
      → Every P xs
      → Every P (sort_entries s xs)
  unfolding sort_entries
  Every-sort_entries P s [] h = tt
  Every-sort_entries P s (x ∷ xs) h =
      Every-insert_entry P s x (sort_entries s xs) h.0 (Every-sort_entries P s xs h.1)

  insert_entry-IsSorted :
      (s : EvictionStrategy) (x : Text × CacheEntry E) (ys : Entries E)
      → IsSorted s ys
      → IsSorted s (insert_entry s x ys)
  unfolding insert_entry
  insert_entry-IsSorted s x [] h = (tt, tt)
  insert_entry-IsSorted s x (y ∷ ys) h = elim (Bool-cases (key_le s x.1 y.1)) [
    | inl e ↦ rw e ((e, Least-trans s x.1 y.1 ys e h.0), h)
    | inr e ↦ rw e (
      Every-insert_entry (λ z. key_le s y.1 z.1 ≡ true) s x ys (key_le_total s x.1 y.1 e) h.0,
      insert_entry-IsSorted s x ys h.1,
    )
  ]

  sort_entries-IsSorted : (s : EvictionStrategy) (xs : Entries E) → IsSorted s (sort_entries s xs)
  unfolding sort_entries
  sort_entries-IsSorted s [] = tt
  sort_entries-IsSorted s (x ∷ xs) =
      insert_entry-IsSorted s x (sort_entries s xs) (sort_entries-IsSorted s xs)

  Every-drop :
      (P : Text × CacheEntry E → Type 0) (n : ℕ) (xs : Entries E) → Every P xs → Every P (drop n xs)
  Every-drop P zero xs h = h
  Every-drop P (suc n) [] h = h
  Every-drop P (suc n) (x ∷ xs) h = Every-drop P n xs h.1

  take-Precedes-drop :
      (s : EvictionStrategy) (n : ℕ) (xs : Entries E)
      → IsSorted s xs
      → Precedes s (take n xs) (drop n xs)
  take-Precedes-drop s zero xs h = tt
  take-Precedes-drop s (suc n) [] h = tt
  take-Precedes-drop s (suc n) (x ∷ xs) h =
      (Every-drop (λ y. key_le s x.1 y.1 ≡ true) n xs h.0, take-Precedes-drop s n xs h.1)

  module _ (order : Entries E → Entries E) where
    evict_if_needed-fits :
        (c : InMemoryEmbeddingCache E)
        → length (order c.cache) ≡ length c.cache
        → length (evict_if_needed order c).cache ≤ c.config.max_size
    unfolding evict_if_needed
    evict_if_needed-fits c h = ground (
      arith,
      h,
      length-put_back-le
          (drop (length c.cache - c.config.max_size)
            (sort_entries c.config.eviction_strategy (order c.cache)))
          [],
      length-drop (length c.cache - c.config.max_size)
          (sort_entries c.config.eviction_strategy (order c.cache)),
      length-sort_entries c.config.eviction_strategy (order c.cache),
    )

    -- If the hash map gives each of its entries once, then, whatever was in the cache, after a `put` it holds at most `max_size` entries.
    pub put_embedding-fits :
        ((m : Entries E) → length (order m) ≡ length m)
        → (c : InMemoryEmbeddingCache E) (now : ℕ) (text : Text) (e : E)
        → length (put_embedding order c now text e).cache ≤ c.config.max_size
    unfolding put_embedding
    put_embedding-fits h c now text e =
        evict_if_needed-fits (record c { cache = put text (new_entry e now) c.cache })
          (h (put text (new_entry e now) c.cache))

    -- A cache that is too large loses as many entries as it has too many, each of which sorts by
    -- the strategy's key before every entry that stays, or with it.
    pub evict_if_needed_least :
        (c : InMemoryEmbeddingCache E)
        → length (order c.cache) ≡ length c.cache
        → c.config.max_size < length c.cache
        → (evicted : Entries E) × (kept : Entries E) × (evicted ++ kept
            ≡ sort_entries c.config.eviction_strategy (order c.cache))
          × (length evicted ≡ length c.cache - c.config.max_size)
          × ((evict_if_needed order c).cache ≡ put_back kept [])
          × Precedes c.config.eviction_strategy evicted kept
    unfolding evict_if_needed
    evict_if_needed_least c e h =
        let s = c.config.eviction_strategy in
        let n : ℕ = length c.cache - c.config.max_size in
        let sorted : Entries E = sort_entries s (order c.cache) in
        (
          take n sorted,
          drop n sorted,
          take-append-drop n sorted,
          omega (arith, length-take {0} n sorted, length-sort_entries s (order c.cache)),
          ground arith,
          take-Precedes-drop s n sorted (sort_entries-IsSorted s (order c.cache)),
        )
