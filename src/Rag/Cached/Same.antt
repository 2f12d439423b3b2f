-- ===== src/Rag/Cached/Same.antt =====
-- The cached generator of crates/gola-core/src/rag/embeddings.rs against the generator that it wraps.
use mathlib.Core.Path.{subst}
use gola.Prelude.{
  ℕ, suc, ◌-◌, ◌≡◌, refl, sym, ap, ◌∙◌, ◌⊎◌, inl, inr, Bool-cases, Option, none, some, List, [],
  ◌∷◌, ◌++◌, map, length, length-append, append_assoc, set, set-append, drop, leb, Every,
  Every-drop, Text, same, eq_of_same, text_key, lookup, put, ◌==◌, arith,
}
use gola.Core.Errors.{ok}
use gola.Rag.Cache.{
  Entries, CacheEntry, InMemoryEmbeddingCache, new_entry, access, evict_if_needed, sort_entries,
  put_back, put_pairs, put_batch, get, get_batch,
}
use gola.Rag.Cache.Evict.{Every-sort_entries}
use gola.Rag.System.{EmbeddingGenerator}
use gola.Rag.Cached.{
  uncached, fill, complete, with_first, or_unchanged, generate_missing, generate_embeddings,
}

module _ {E : Type 0} (P : Text × CacheEntry E → Type 0) where
  Every-put :
      (k : Text) (v : CacheEntry E) (m : Entries E) → P (k, v) → Every P m → Every P (put k v m)
  unfolding put
  Every-put k v [] h e = (h, tt)
  Every-put k v ((j, w) ∷ m) h e = elim (Bool-cases (same j k)) [
    | inl f ↦ rw f (h, e.1)
    | inr f ↦ rw f (e.0, Every-put k v m h e.1)
  ]

  Every-put_back : (es m : Entries E) → Every P es → Every P m → Every P (put_back es m)
  unfolding put_back
  Every-put_back [] m h k = k
  Every-put_back ((t, e) ∷ es) m h k = Every-put_back es (put t e m) h.1 (Every-put t e m h.0 k)

  Every-lookup :
      (k : Text) (m : Entries E) (entry : CacheEntry E)
      → Every P m
      → lookup k m ≡ some entry
      → P (k, entry)
  unfolding lookup
  Every-lookup k [] entry h e = ground (arith, e)
  Every-lookup k ((j, w) ∷ m) entry h e = elim (Bool-cases (same j k)) [
    | inl f ↦
        let found : w ≡ entry = ground (arith, e, f) in
        subst (λ t. P (t, entry)) (eq_of_same j k f) (subst (λ v. P (j, v)) found h.0)
    | inr f ↦ Every-lookup k m entry h.1 (ground (arith, e, f))
  ]

module _ {E : Type 0} (f : Text → E) where
  -- Every entry has the embedding of its key.
  abbrev pub IsRight : InMemoryEmbeddingCache E → Type 0
  IsRight c = Every (λ (e : Text × CacheEntry E). e.1.embedding ≡ f e.0) c.cache

  -- What was found for each text, if anything, is its embedding.
  abbrev Agrees : List Text → List (Option E) → Type 0
  Agrees [] [] = Unit
  Agrees (t ∷ ts) (o ∷ os) = ((o ≡ none) ⊎ (o ≡ some (f t))) × Agrees ts os
  Agrees _ _ = ⊥

  get-IsRight :
      (c : InMemoryEmbeddingCache E) (now : ℕ) (t : Text) (o : Option (CacheEntry E))
      → lookup t c.cache ≡ o
      → IsRight c
      → IsRight (get c now t).0 × (((get c now t).1 ≡ none) ⊎ ((get c now t).1 ≡ some (f t)))
  unfolding get
  get-IsRight c now t none e h = rw (get, e) (h, inl refl)
  get-IsRight c now t (some entry) e h =
      let right : entry.embedding ≡ f t =
        Every-lookup (λ e. e.1.embedding ≡ f e.0) t c.cache entry h e in
      rw (get, e)
        (
          Every-put (λ e. e.1.embedding ≡ f e.0) t (access entry now) c.cache right h,
          inr (ap some right),
        )

  get_batch-IsRight :
      (c : InMemoryEmbeddingCache E) (clock : ℕ → ℕ) (i : ℕ) (ts : List Text)
      → IsRight c
      → IsRight (get_batch c clock i ts).0 × Agrees ts (get_batch c clock i ts).1
  unfolding get_batch
  get_batch-IsRight c clock i [] h = (h, tt)
  get_batch-IsRight c clock i (t ∷ ts) h =
      let one = get-IsRight c (clock i) t (lookup t c.cache) refl h in
      let rest = get_batch-IsRight (get c (clock i) t).0 clock (suc i) ts one.0 in
      (rest.0, (one.1, rest.1))

  put_pairs-IsRight :
      (order : Entries E → Entries E) (clock : ℕ → ℕ) (i : ℕ) (ts : List Text) (m : Entries E)
      → Every (λ (e : Text × CacheEntry E). e.1.embedding ≡ f e.0) m
      → Every
          (λ (e : Text × CacheEntry E). e.1.embedding ≡ f e.0)
          (put_pairs order clock i ts (map f ts) m)
  put_pairs-IsRight order clock i [] m h = h
  put_pairs-IsRight order clock i (t ∷ ts) m h =
      put_pairs-IsRight order clock (suc i) ts (put t (new_entry (f t) (clock i)) m)
        (Every-put (λ e. e.1.embedding ≡ f e.0) t (new_entry (f t) (clock i)) m refl h)

  -- The results, once the missing ones are filled in, are the embeddings of all texts.
  fill-uncached :
      (before : List (Option E)) (i : ℕ) (ts : List Text) (os : List (Option E))
      → length before ≡ i
      → Agrees ts os
      → fill (uncached i ts os) (map f (map (λ p. p.1) (uncached i ts os))) (before ++ os)
        ≡ before ++ map (λ t. some (f t)) ts
  fill-uncached before i [] [] n a = refl
  fill-uncached before i [] (o ∷ os) n a = elim a [ ]
  fill-uncached before i (t ∷ ts) [] n a = elim a [ ]
  fill-uncached before i (t ∷ ts) (none ∷ os) n a =
      let ps = uncached (suc i) ts os in
      ap (fill ps (map f (map (λ p. p.1) ps))) (
        subst (λ k. set k (some (f t)) (before ++ none ∷ os) ≡ before ++ some (f t) ∷ os) n
          (set-append before os (some (f t)) none)
        ∙ sym (append_assoc before (some (f t) ∷ []) os))
      ∙ fill-uncached (before ++ some (f t) ∷ []) (suc i) ts os
          (omega (arith, length-append before (some (f t) ∷ []), n)) a.1
      ∙ append_assoc before (some (f t) ∷ []) (map (λ t. some (f t)) ts)
  fill-uncached before i (t ∷ ts) (some e ∷ os) n a =
      let ps = uncached (suc i) ts os in
      let right : e ≡ f t = elim a.0 [ inl h ↦ ground (arith, h) | inr h ↦ ground (arith, h) ] in
      ap (fill ps (map f (map (λ p. p.1) ps))) (sym (append_assoc before (some e ∷ []) os))
      ∙ fill-uncached (before ++ some e ∷ []) (suc i) ts os
          (omega (arith, length-append before (some e ∷ []), n)) a.1
      ∙ append_assoc before (some e ∷ []) (map (λ t. some (f t)) ts)
      ∙ ap (λ e. before ++ some e ∷ map (λ t. some (f t)) ts) right

  filled :
      (ts : List Text) (os : List (Option E)) (ps : List (ℕ × Text))
      → uncached 0 ts os ≡ ps
      → Agrees ts os
      → fill ps (map f (map (λ p. p.1) ps)) os ≡ map (λ t. some (f t)) ts
  filled ts os ps u a =
      subst
        (λ (ps : List (ℕ × Text)).
          fill ps (map f (map (λ p. p.1) ps)) os ≡ map (λ t. some (f t)) ts)
        u (fill-uncached [] 0 ts os refl a)

  complete_all : (i : ℕ) (ts : List Text) → complete i (map (λ t. some (f t)) ts) ≡ ok (map f ts)
  unfolding complete
  complete_all i [] = refl
  complete_all i (t ∷ ts) = ap (with_first (f t)) (complete_all (suc i) ts)

  module _ (order : Entries E → Entries E) (inner : EmbeddingGenerator E)
      (keeps : (P : Text × CacheEntry E → Type 0) (es : Entries E)
        → Every P es
        → Every P (order es)) where
    evict_if_needed-IsRight :
        (c : InMemoryEmbeddingCache E) → IsRight c → IsRight (evict_if_needed order c)
    unfolding evict_if_needed
    evict_if_needed-IsRight c h =
        let right : Text × CacheEntry E → Type 0 = λ e. e.1.embedding ≡ f e.0 in
        let n : ℕ = length c.cache - c.config.max_size in
        let sorted = sort_entries c.config.eviction_strategy (order c.cache) in
        elim (Bool-cases (leb (length c.cache) c.config.max_size)) [
          | inl e ↦ rw e h
          | inr e ↦ rw e (
              Every-put_back right (drop n sorted) []
                (Every-drop right n sorted (
                  Every-sort_entries right c.config.eviction_strategy (order c.cache)
                    (keeps right c.cache h)))
                tt)
        ]

    put_batch-IsRight :
        (c : InMemoryEmbeddingCache E) (clock : ℕ → ℕ) (ts : List Text)
        → IsRight c
        → IsRight (or_unchanged order inner c (put_batch order c clock ts (map f ts)))
    unfolding put_batch
    put_batch-IsRight c clock ts h = elim (Bool-cases (length ts == length (map f ts))) [
      | inl e ↦ rw e (
          evict_if_needed-IsRight
            (record c { cache = put_pairs order clock 0 ts (map f ts) c.cache })
            (put_pairs-IsRight order clock 0 ts c.cache h))
      | inr e ↦ rw e h
    ]

    generate_missing-same :
        (clock : ℕ → ℕ) (ts : List Text) (c : InMemoryEmbeddingCache E) (os : List (Option E))
        (ps : List (ℕ × Text))
        → ((ts : List Text) → inner.generate_embeddings ts ≡ ok (map f ts))
        → uncached 0 ts os ≡ ps
        → IsRight c
        → Agrees ts os
        → ((generate_missing order inner clock ps (c, os)).0 ≡ ok (map f ts))
          × IsRight (generate_missing order inner clock ps (c, os)).1
    unfolding generate_missing
    generate_missing-same clock ts c os [] g u h a =
        (ap (complete 0) (filled ts os [] u a) ∙ complete_all 0 ts, h)
    generate_missing-same clock ts c os (p ∷ ps) g u h a =
        let qs = map (λ (p : ℕ × Text). p.1) (p ∷ ps) in
        rw (g qs) (
          ap (complete 0) (filled ts os (p ∷ ps) u a) ∙ complete_all 0 ts,
          put_batch-IsRight c clock qs h,
        )

    -- A generator behind a cache gives for a list of texts what the generator gives without it, and the cache
    -- stays right. The conditions: the generator has an embedding for each text and gives several
    -- as it gives each, every entry of the cache has the embedding of its key, and the hash map
    -- gives only entries that it has.
    pub generate_embeddings-same :
        ((ts : List Text) → inner.generate_embeddings ts ≡ ok (map f ts))
        → (c : InMemoryEmbeddingCache E) (asked clock : ℕ → ℕ) (ts : List Text) → IsRight c
        → ((generate_embeddings order inner c asked clock ts).0 ≡ inner.generate_embeddings ts)
          × IsRight (generate_embeddings order inner c asked clock ts).1
    unfolding generate_embeddings
    generate_embeddings-same g c asked clock [] h = (sym (g []), h)
    generate_embeddings-same g c asked clock (t ∷ ts) h =
        let found = get_batch c asked 0 (t ∷ ts) in
        let right = get_batch-IsRight c asked 0 (t ∷ ts) h in
        let same =
          generate_missing-same clock (t ∷ ts) found.0 found.1 (uncached 0 (t ∷ ts) found.1) g refl
            right.0 right.1 in
        (same.0 ∙ sym (g (t ∷ ts)), same.1)
