-- ===== src/Tests/Cache.antt =====
-- Tests of crates/gola-core/src/rag/cache.rs. An embedding is one number.
use gola.Prelude.{
  ℕ, ◌≡◌, refl, none, some, [], ◌∷◌, ◌++◌, arith, length, codes, same, text_key, length-append,
  lookup, put,
}
use gola.Rag.Cache.{
  Entries, CacheEntry, InMemoryEmbeddingCache, EvictionStrategy, lru, lfu, default_config, new,
  new_entry, sort_entries, put_back, evict_if_needed, put_embedding, get,
}
use gola.Rag.Cache.Reads.{reads}

abbrev order : Entries ℕ → Entries ℕ
order [] = []
order (x ∷ xs) = order xs ++ x ∷ []

length-order : (m : Entries ℕ) → length (order m) ≡ length m
length-order [] = refl
length-order (x ∷ xs) = ground (arith, length-append (order xs) (x ∷ []), length-order xs)

abbrev sized : EvictionStrategy → InMemoryEmbeddingCache ℕ
sized s = new (record default_config { max_size = 2; eviction_strategy = s })

abbrev two_entries : EvictionStrategy → InMemoryEmbeddingCache ℕ
two_entries s =
    put_embedding order (put_embedding order (sized s) 1 (codes "a") 10) 2 (codes "b") 20

-- The source's own test of the strategy: a read makes an entry the most recent one.
abbrev read_a : EvictionStrategy → InMemoryEmbeddingCache ℕ
read_a s = (get (two_entries s) 3 (codes "a")).0

program : Unit {0}
unfolding put_embedding get lookup put same sort_entries put_back evict_if_needed
program = tt

lru_evicts : reads (put_embedding order (read_a lru) 4 (codes "c") 30) (codes "b") ≡ none
unfolding program
lru_evicts = refl

lru_keeps : reads (put_embedding order (read_a lru) 4 (codes "c") 30) (codes "a") ≡ some 10
unfolding program
lru_keeps = refl

-- When every entry has been read, the least frequently used one is the one that was just put.
lfu_evicts_new :
    reads (put_embedding order (get (read_a lfu) 4 (codes "b")).0 5 (codes "c") 30) (codes "c")
    ≡ none
unfolding program
lfu_evicts_new = refl

abbrev three : InMemoryEmbeddingCache ℕ
three = record {
  cache =
      (codes "a", new_entry 10 3) ∷ (codes "b", new_entry 20 1) ∷ (codes "c", new_entry 30 2) ∷ [];
  config = record default_config { max_size = 2 };
}

abbrev read_twice : ℕ → CacheEntry ℕ
read_twice e = record { embedding = e; access_count = 2; last_accessed = 5; created_at = 1 }

abbrev all_read : InMemoryEmbeddingCache ℕ
all_read = record {
  cache = (codes "a", read_twice 10) ∷ (codes "b", read_twice 20) ∷ [];
  config = record default_config { max_size = 2; eviction_strategy = lfu };
}
