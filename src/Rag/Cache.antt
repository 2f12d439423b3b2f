-- ===== src/Rag/Cache.antt =====
-- The in-memory cache of crates/gola-core/src/rag/cache.rs. `E` is the type of embeddings. A method
-- is one step of the cache's state: each takes the write lock for its whole body but `put` and
-- `put_batch`, which let it go before they evict. The readings of the clock are arguments.
pub mod Evict
pub mod Reads
pub mod Frequency
use gola.Prelude.{
  ℕ, zero, suc, ◌+◌, ◌-◌, ◌%◌, ◌^◌, Bool, true, false, ◌&&◌, ◌||◌, Option, none, some, List, [],
  ◌∷◌, length, drop, Text, codes, ltb, leb, ◌==◌, text_key, lookup, put, if◌then◌else◌,
}
use gola.Core.Errors.{Result, ok, err, rag_error}

pub data EvictionStrategy : Type 0 where
  lru fifo lfu : EvictionStrategy

pub record EmbeddingCacheConfig : Type 0 where
  pub max_size : ℕ
  pub persistent : Bool
  pub cache_file_path : Option Text
  pub compress : Bool
  pub eviction_strategy : EvictionStrategy

abbrev pub default_config : EmbeddingCacheConfig
default_config = record {
  max_size = 10000;
  persistent = false;
  cache_file_path = none;
  compress = false;
  eviction_strategy = lru;
}

pub record CacheEntry (E : Type 0) : Type 0 where
  pub embedding : E
  pub access_count : ℕ
  pub last_accessed : ℕ
  pub created_at : ℕ

abbrev pub Entries : Type 0 → Type 0
Entries E = List (Text × CacheEntry E)

pub record InMemoryEmbeddingCache (E : Type 0) : Type 0 where
  pub cache : Entries E
  pub config : EmbeddingCacheConfig

module _ {E : Type 0} where
  abbrev pub new_entry : E → ℕ → CacheEntry E
  new_entry e now = record {
    embedding = e;
    access_count = 1;
    last_accessed = now;
    created_at = now;
  }

  -- `access_count` is a `u64`.
  abbrev pub access : CacheEntry E → ℕ → CacheEntry E
  access entry now = record entry {
    access_count = (entry.access_count + 1) % 2 ^ 64;
    last_accessed = now;
  }

  abbrev pub new : EmbeddingCacheConfig → InMemoryEmbeddingCache E
  new config = record { cache = []; config = config }

  -- The key that each strategy sorts by is at most the other's.
  abbrev pub key_le : EvictionStrategy → CacheEntry E → CacheEntry E → Bool
  key_le lru a b =
      ltb a.last_accessed b.last_accessed
      || (a.last_accessed == b.last_accessed && leb a.created_at b.created_at)
  key_le fifo a b = leb a.created_at b.created_at
  key_le lfu a b = leb a.access_count b.access_count

  -- `sort_by_key`, which is stable.
  unfoldable pub insert_entry : EvictionStrategy → Text × CacheEntry E → Entries E → Entries E
  insert_entry s x [] = x ∷ []
  insert_entry s x (y ∷ ys) = if key_le s x.1 y.1 then x ∷ y ∷ ys else y ∷ insert_entry s x ys

  unfoldable pub sort_entries : EvictionStrategy → Entries E → Entries E
  unfolding insert_entry
  sort_entries s [] = []
  sort_entries s (x ∷ xs) = insert_entry s x (sort_entries s xs)

  unfoldable pub put_back : Entries E → Entries E → Entries E
  put_back [] m = m
  put_back ((k, e) ∷ es) m = put_back es (put k e m)

  -- A hash map gives its entries in an order of its own, `order`.
  module _ (order : Entries E → Entries E) where
    unfoldable pub evict_if_needed : InMemoryEmbeddingCache E → InMemoryEmbeddingCache E
    unfolding sort_entries put_back
    evict_if_needed c = if leb (length c.cache) c.config.max_size then c else record c {
      cache =
          put_back
            (drop (length c.cache - c.config.max_size)
              (sort_entries c.config.eviction_strategy (order c.cache)))
            [];
    }

    unfoldable pub put_embedding :
        InMemoryEmbeddingCache E → ℕ → Text → E → InMemoryEmbeddingCache E
    put_embedding c now text e =
        evict_if_needed (record c { cache = put text (new_entry e now) c.cache })

    -- The loop reads the clock for each entry: `clock i` is the reading for the entry `i`.
    abbrev pub put_pairs : (ℕ → ℕ) → ℕ → List Text → List E → Entries E → Entries E
    put_pairs clock i (t ∷ ts) (e ∷ es) m =
        put_pairs clock (suc i) ts es (put t (new_entry e (clock i)) m)
    put_pairs clock i _ _ m = m

    unfoldable pub put_batch :
        InMemoryEmbeddingCache E → (ℕ → ℕ) → List Text → List E → Result (InMemoryEmbeddingCache E)
    put_batch c clock texts embeddings =
        if length texts == length embeddings
        then ok (evict_if_needed (record c { cache = put_pairs clock 0 texts embeddings c.cache }))
        else err (rag_error (codes "Texts and embeddings length mismatch"))

  -- A hit notes the access.
  unfoldable pub get : InMemoryEmbeddingCache E → ℕ → Text → InMemoryEmbeddingCache E × Option E
  get c now text = elim (lookup text c.cache) [
    | none ↦ (c, none)
    | some entry ↦ (record c { cache = put text (access entry now) c.cache }, some entry.embedding)
  ]

  unfoldable pub get_batch :
      InMemoryEmbeddingCache E
      → (ℕ → ℕ)
      → ℕ
      → List Text
      → InMemoryEmbeddingCache E × List (Option E)
  get_batch c clock i [] = (c, [])
  get_batch c clock i (t ∷ ts) =
      let (c', found) = get c (clock i) t in
      let (c'', rest) = get_batch c' clock (suc i) ts in (c'', found ∷ rest)

  abbrev pub clear : InMemoryEmbeddingCache E → InMemoryEmbeddingCache E
  clear c = record c { cache = [] }

  abbrev pub size : InMemoryEmbeddingCache E → ℕ
  size c = length c.cache
