-- ===== src/Rag/Cache/Reads.antt =====
-- What a reader of the cache of crates/gola-core/src/rag/cache.rs sees.
use gola.Prelude.{
  ℕ, suc, ◌≤◌, Option, none, some, List, [], ◌∷◌, map, length, ◌≡◌, refl, ap₂, ◌∙◌, Text, same,
  same_iff, text_key, lookup, put, lookup-put, arith, if◌then◌else◌,
}
use gola.Rag.Cache.{
  Entries, CacheEntry, InMemoryEmbeddingCache, new_entry, access, evict_if_needed, put_embedding,
  get, get_batch,
}

map_eq : {A B : Type 0} {f g : A → B} → ((x : A) → f x ≡ g x) → (xs : List A) → map f xs ≡ map g xs
map_eq h [] = refl
map_eq h (x ∷ xs) = ap₂ (◌∷◌) (h x) (map_eq h xs)

module _ {E : Type 0} where
  abbrev pub embedding_of : Option (CacheEntry E) → Option E
  embedding_of none = none
  embedding_of (some entry) = some entry.embedding

  abbrev pub reads : InMemoryEmbeddingCache E → Text → Option E
  reads c j = embedding_of (lookup j c.cache)

  -- `get` gives the embedding of the entry.
  get-reads : (c : InMemoryEmbeddingCache E) (now : ℕ) (k : Text) → (get c now k).1 ≡ reads c k
  unfolding get
  get-reads c now k = ground arith

  reads-get_found :
      (c : InMemoryEmbeddingCache E) (now : ℕ) (k j : Text) (r : Option (CacheEntry E))
      → lookup k c.cache ≡ r
      → reads (get c now k).0 j ≡ reads c j
  unfolding get
  reads-get_found c now k j none h = ground arith
  reads-get_found c now k j (some entry) h =
      ground (arith, lookup-put k j (access entry now) c.cache, same_iff k j)

  -- `get` changes no embedding that a lookup finds.
  reads-get :
      (c : InMemoryEmbeddingCache E) (now : ℕ) (k j : Text) → reads (get c now k).0 j ≡ reads c j
  reads-get c now k j = reads-get_found c now k j (lookup k c.cache) refl

  -- Reading a batch gives what reading each of its keys in the cache as it stands gives, though each
  -- read notes its access, and it leaves every embedding in place.
  pub get_batch-reads :
      (c : InMemoryEmbeddingCache E) (clock : ℕ → ℕ) (i : ℕ) (ts : List Text)
      → ((get_batch c clock i ts).1 ≡ map (reads c) ts)
        × ((j : Text) → reads (get_batch c clock i ts).0 j ≡ reads c j)
  unfolding get_batch
  get_batch-reads c clock i [] = (refl, λ j. refl)
  get_batch-reads c clock i (t ∷ ts) =
      let c' = (get c (clock i) t).0 in
      let rest = get_batch-reads c' clock (suc i) ts in
      (
        ap₂ (◌∷◌) (get-reads c (clock i) t) (rest.0 ∙ map_eq (λ j. reads-get c (clock i) t j) ts),
        λ j. rest.1 j ∙ reads-get c (clock i) t j,
      )

  module _ (order : Entries E → Entries E) where
    -- An embedding put into a cache with room is the one that the next reader of its key gets, and
    -- the readers of the other keys get what they got.
    pub get-put_embedding :
        (c : InMemoryEmbeddingCache E) (now later : ℕ) (k j : Text) (e : E)
        → length (put k (new_entry e now) c.cache) ≤ c.config.max_size
        → (get (put_embedding order c now k e) later j).1 ≡ (if same k j then some e else reads c j)
    unfolding put_embedding evict_if_needed
    get-put_embedding c now later k j e room =
        get-reads _ later j ∙ ground (arith, lookup-put k j (new_entry e now) c.cache)
