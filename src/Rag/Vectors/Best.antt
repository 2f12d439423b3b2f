-- ===== src/Rag/Vectors/Best.antt =====
-- What the search of crates/gola-core/src/rag/vector_store.rs finds, and what the store keeps.
use mathlib.Core.List.{Perm}
use mathlib.Core.List.Perm
use gola.Prelude.{
  ℕ, suc, Bool, length-Perm, Every-Perm, ◌≡◌, refl, sym, ap, ◌∙◌, true, false, Option, none, some,
  List, [], ◌∷◌, ◌++◌, map, length, take, drop, ◌==◌, arith, Every, put, remove, number_key,
  sort_by, length-sort_by, sort_by-Perm, sort_by-InOrder, InOrder, AllBefore, take-InOrder,
  take-AllBefore-drop, take-append-drop, length-take, Bool-cases, inl, inr, ==_iff,
}
use Prim.Native.Nat.{min}
use gola.Core.Errors.{Result, ok, err}
use gola.Rag.Vectors.{
  Floats, cosine_similarity, or_stop, SearchResult, InMemoryVectorStore, not_behind, scored, ranked,
  search, add_document, add_documents,
}

module _ (floats : Floats) where
  open floats use {F, less}

  -- Every embedding has the dimension of the store; a store without one is empty.
  abbrev pub IsUniform : InMemoryVectorStore F → Type 0
  IsUniform store = elim store.embedding_dimension [
    | none ↦ store.embeddings ≡ []
    | some n ↦ Every (λ (e : ℕ × List F). length e.1 ≡ n) store.embeddings
  ]

  module _ (P : ℕ × List F → Type 0) where
    pub Every-put :
        (k : ℕ) (v : List F) (m : List (ℕ × List F)) → P (k, v) → Every P m → Every P (put k v m)
    unfolding put
    Every-put k v [] h e = (h, tt)
    Every-put k v ((j, w) ∷ m) h e = elim (Bool-cases (j == k)) [
      | inl f ↦ rw f (h, e.1)
      | inr f ↦ rw f (e.0, Every-put k v m h e.1)
    ]

    Every-remove : (k : ℕ) (m : List (ℕ × List F)) → Every P m → Every P (remove k m)
    unfolding remove
    Every-remove k [] e = tt
    Every-remove k ((j, w) ∷ m) e = elim (Bool-cases (j == k)) [
      | inl f ↦ rw f (Every-remove k m e.1)
      | inr f ↦ rw f (e.0, Every-remove k m e.1)
    ]

  IsUniform-inserted :
      (held : List (ℕ × List F)) (id : ℕ) (embedding : List F)
      → (d : Option ℕ) → IsUniform (record { embeddings = held; embedding_dimension = d })
      → IsUniform
          (add_document floats
            (record { embeddings = held; embedding_dimension = d })
            id
            embedding).1
  unfolding add_document
  IsUniform-inserted held id embedding none h =
      Every-put (λ e. length e.1 ≡ length embedding) id embedding held refl (rw h tt)
  IsUniform-inserted held id embedding (some n) h = elim (Bool-cases (length embedding == n)) [
    | inl f ↦
        rw f
          (Every-put (λ e. length e.1 ≡ n) id embedding held ((==_iff (length embedding) n).0 f) h)
    | inr f ↦ rw f h
  ]

  or_stop-IsUniform :
      (r : Result (Unit {0}) × InMemoryVectorStore F)
      (next : InMemoryVectorStore F → Result (Unit {0}) × InMemoryVectorStore F)
      → IsUniform r.1
      → ((store : InMemoryVectorStore F) → IsUniform store → IsUniform (next store).1)
      → IsUniform (or_stop floats r next).1
  or_stop-IsUniform (err e, store) next h k = h
  or_stop-IsUniform (ok done, store) next h k = k store h

  -- Adding documents one after the other, up to the first that does not fit, keeps every embedding
  -- of the store at the store's dimension.
  pub add_documents-IsUniform :
      (store : InMemoryVectorStore F) (documents : List (ℕ × List F))
      → IsUniform store
      → IsUniform (add_documents floats store documents).1
  unfolding add_documents
  add_documents-IsUniform store [] h = h
  add_documents-IsUniform store ((id, embedding) ∷ rest) h =
      or_stop-IsUniform (add_document floats store id embedding) _
        (IsUniform-inserted store.embeddings id embedding store.embedding_dimension h)
        (λ next k. add_documents-IsUniform next rest k)

  nil_of_length : {A : Type 0} (xs : List A) → length xs ≡ 0 → xs ≡ []
  nil_of_length [] h = refl
  nil_of_length (x ∷ xs) h = ground (arith, h)

  length-map : {A B : Type 0} (f : A → B) (xs : List A) → length (map f xs) ≡ length xs
  length-map f [] = refl
  length-map f (x ∷ xs) = ap suc (length-map f xs)

  module _ (order : List (ℕ × List F) → List (ℕ × List F)) (query : List F) (k : ℕ) where
    found :
        (rs : List (SearchResult F)) (held : List (ℕ × List F)) (d : Option ℕ)
        → length (order held) ≡ length held
        → let store : InMemoryVectorStore F = record {
          embeddings = held;
          embedding_dimension = d;
        } in
          search floats order store query k ≡ ok rs → rs ≡ take k (ranked floats order store query)
    unfolding search
    found rs [] d l h =
        let scores = map (scored floats query) (order []) in
        let e : rs ≡ [] = ground (arith, h) in
        e
        ∙ sym (
            nil_of_length (take k (sort_by (not_behind floats) scores)) (
              omega (
                arith,
                length-take k (sort_by (not_behind floats) scores),
                length-sort_by (not_behind floats) scores,
                length-map (scored floats query) (order []),
                l,
              )))
    found rs (e ∷ es) none l h = ground (arith, h)
    found rs (e ∷ es) (some n) l h = elim (Bool-cases (length query == n)) [
      | inl f ↦ ground (arith, h, f)
      | inr f ↦ ground (arith, h, f)
    ]

    Every-scored :
        (is_number : F → Bool) (es : List (ℕ × List F))
        → Every (λ e. is_number (cosine_similarity floats query e.1) ≡ true) es
        → Every (λ r. is_number r.score ≡ true) (map (scored floats query) es)
    Every-scored is_number [] h = tt
    Every-scored is_number ((id, embedding) ∷ es) h = (h.0, Every-scored is_number es h.1)

    -- What a search finds, when it finds something without an error, is the best: its results and
    -- some others are the scores of all embeddings in the store, each once; they are as many as asked
    -- for, or all; they stand in descending order of their scores; and none of the others has a
    -- greater score than one of them. The conditions: of two scores at most one is less than the
    -- other; the scores of the embeddings are numbers (none is NaN), among which "not less" is
    -- transitive; and the hash map gives its entries, each once, in some order.
    pub search-best :
        (is_number : F → Bool)
        → ((x y : F) → less x y ≡ true → less y x ≡ false)
        → ((x y z : F)
            → is_number x ≡ true
            → is_number y ≡ true
            → is_number z ≡ true
            → less x y ≡ false
            → less y z ≡ false
            → less x z ≡ false)
        → (store : InMemoryVectorStore F) (rs : List (SearchResult F))
        → Every (λ e. is_number (cosine_similarity floats query e.1) ≡ true) store.embeddings
        → Perm (order store.embeddings) store.embeddings
        → search floats order store query k ≡ ok rs
        → (others : List (SearchResult F)) × Perm
            (rs ++ others)
            (map (scored floats query) store.embeddings)
          × (length rs ≡ min k (length store.embeddings))
          × InOrder (not_behind floats) rs
          × AllBefore (not_behind floats) rs others
    search-best is_number asym trans store rs numbers perm h =
        let all = ranked floats order store query in
        let scores = map (scored floats query) (order store.embeddings) in
        let l = length-Perm perm in
        let e = found rs store.embeddings store.embedding_dimension l h in
        let sorted =
          sort_by-InOrder (not_behind floats) (λ r. is_number r.score ≡ true)
            (λ x y p q g. ground (arith, asym x.score y.score, g))
            (λ x y z p q r g j. ground (arith, trans x.score y.score z.score p q r, g, j)) scores
            (Every-scored is_number (order store.embeddings) (
              Every-Perm (λ e. is_number (cosine_similarity floats query e.1) ≡ true) (λ e. hlevel)
                (Perm.symm perm) numbers)) in
        (
          drop k all,
          rw (e, take-append-drop k all)
              (Perm.trans (sort_by-Perm (not_behind floats) scores)
                (Perm.map (scored floats query) perm)),
          rw
              (
                e,
                length-take k all,
                length-sort_by (not_behind floats) scores,
                length-map (scored floats query) (order store.embeddings),
                l,
              )
              refl,
          rw e (take-InOrder (not_behind floats) k all sorted),
          rw e (take-AllBefore-drop (not_behind floats) k all sorted),
        )
