-- ===== src/Rag/System/Indexed.antt =====
-- The index of crates/gola-core/src/rag/rag_system.rs: which document an embedding in the store belongs to.
use mathlib.Core.Path.{subst}
use gola.Prelude.{
  ℕ, zero, suc, ◌%◌, ◌^◌, ◌≤◌, ◌≡◌, refl, sym, ap, ◌∙◌, Bool-cases, inl, inr, Option, none, some,
  List, [], ◌∷◌, ◌++◌, length, get_elem?, arith, Every, length-append, get_elem?-append, Text, ◌==◌,
  number_key,
}
use gola.Core.Errors.{Result, ok, err, ◌>>=◌}
use gola.Rag.Context.{RagDocument}
use gola.Rag.Vectors.{Floats, InMemoryVectorStore, inserted}
use gola.Rag.Vectors
use gola.Rag.Vectors.Best.{Every-put}
use gola.Rag.Splitter.{split_text}
use gola.Rag.System.{
  EmbeddingGenerator, RagSystem, each_embedding, chunk_document, or_stop, add_chunk, add_chunks,
  add_embedded, process_document, or_next, add_documents,
}

module _ {A : Type 0} where
  Every-imp : (P Q : A → Type 0) → ((x : A) → P x → Q x) → (xs : List A) → Every P xs → Every Q xs
  Every-imp P Q h [] k = tt
  Every-imp P Q h (x ∷ xs) k = (h x k.0, Every-imp P Q h xs k.1)

  get_elem?-append_left :
      (xs ys : List A) (i : ℕ) (x : A) → get_elem? xs i ≡ some x → get_elem? (xs ++ ys) i ≡ some x
  get_elem?-append_left [] ys i x h = ground (arith, h)
  get_elem?-append_left (y ∷ xs) ys zero x h = h
  get_elem?-append_left (y ∷ xs) ys (suc i) x h = get_elem?-append_left xs ys i x h

module _ (floats : Floats) (generate : Text → Result (List floats.F)) where
  open floats use {F}

  -- The embedding under a number is the one that the generator gives for the content of the
  -- document with that number.
  abbrev pub Indexed : List RagDocument → ℕ × List F → Type 0
  Indexed docs e = (d : RagDocument) × (get_elem? docs e.0 ≡ some d) × (generate d.content ≡ ok e.1)

  -- The next number is that of the next document and, as long as the documents can be counted, every
  -- embedding is indexed.
  abbrev pub IsIndexed : RagSystem F → Type 0
  IsIndexed s =
      (s.document_id_counter ≡ length s.documents % 2 ^ 64)
      × (length s.documents ≤ 2 ^ 64 → Every (Indexed s.documents) s.vector_store.embeddings)

  -- Each chunk has its embedding, up to the end of the shorter list.
  abbrev Matches : List Text → List (List F) → Type 0
  Matches (t ∷ ts) (e ∷ es) = (generate t ≡ ok e) × Matches ts es
  Matches _ _ = Unit

  Matches-cons :
      (t : Text) (ts : List Text) (es : List (List F)) (r : Result (List F))
      (rs : Result (List (List F)))
      → generate t ≡ r
      → ((rest : List (List F)) → rs ≡ ok rest → Matches ts rest)
      → (r >>= λ e. rs >>= λ rest. ok (e ∷ rest)) ≡ ok es
      → Matches (t ∷ ts) es
  Matches-cons t ts es (err e) rs g k h = ground (arith, h)
  Matches-cons t ts es (ok e) (err f) g k h = ground (arith, h)
  Matches-cons t ts es (ok e) (ok rest) g k h =
      let same : e ∷ rest ≡ es = ground (arith, h) in subst (Matches (t ∷ ts)) same (g, k rest refl)

  Matches-each_embedding :
      (ts : List Text) (es : List (List F)) → each_embedding generate ts ≡ ok es → Matches ts es
  unfolding each_embedding
  Matches-each_embedding [] es h = tt
  Matches-each_embedding (t ∷ ts) es h =
      Matches-cons t ts es (generate t) (each_embedding generate ts) refl
        (λ rest k. Matches-each_embedding ts rest k) h

  Every-add_document :
      (P : ℕ × List F → Type 0) (held : List (ℕ × List F)) (d : Option ℕ) (id : ℕ)
      (embedding : List F)
      → P (id, embedding)
      → Every P held
      → Every P
          (Vectors.add_document floats
            (record { embeddings = held; embedding_dimension = d })
            id
            embedding).1.embeddings
  unfolding Vectors.add_document
  Every-add_document P held none id embedding h k = Every-put floats P id embedding held h k
  Every-add_document P held (some n) id embedding h k = elim (Bool-cases (length embedding == n)) [
    | inl e ↦ rw e (Every-put floats P id embedding held h k)
    | inr e ↦ rw e k
  ]

  Indexed-append :
      (docs : List RagDocument) (d : RagDocument) (es : List (ℕ × List F))
      → Every (Indexed docs) es
      → Every (Indexed (docs ++ d ∷ [])) es
  Indexed-append docs d es h =
      Every-imp (Indexed docs) (Indexed (docs ++ d ∷ []))
        (λ e p. (p.0, get_elem?-append_left docs (d ∷ []) e.0 p.0 p.1, p.2)) es h

  IsIndexed-add_chunk :
      (doc : RagDocument) (embedding : List F) (s : RagSystem F)
      → generate doc.content ≡ ok embedding
      → IsIndexed s
      → IsIndexed (add_chunk floats doc embedding s).1
  unfolding add_chunk
  IsIndexed-add_chunk doc embedding s g h =
      let n = length-append s.documents (doc ∷ []) in
      (
        omega (arith, h.0, n),
        λ k.
            let at : s.document_id_counter ≡ length s.documents = omega (arith, h.0, k, n) in
            Every-add_document (Indexed (s.documents ++ doc ∷ [])) s.vector_store.embeddings
              s.vector_store.embedding_dimension s.document_id_counter embedding
              (doc, rw at (get_elem?-append s.documents [] doc), g)
              (Indexed-append s.documents doc s.vector_store.embeddings
                (h.1 (omega (arith, k, n)))),
      )

  or_stop-IsIndexed :
      (r : Result (Unit {0}) × RagSystem F) (next : RagSystem F → Result (Unit {0}) × RagSystem F)
      → IsIndexed r.1
      → ((s : RagSystem F) → IsIndexed s → IsIndexed (next s).1)
      → IsIndexed (or_stop floats r next).1
  or_stop-IsIndexed (err e, s) next h k = h
  or_stop-IsIndexed (ok done, s) next h k = k s h

  chunk_document-content :
      (d : RagDocument) (total i : ℕ) (chunk : Text)
      → (chunk_document d total i chunk).content ≡ chunk
  unfolding chunk_document
  chunk_document-content d total i chunk = refl

  IsIndexed-add_chunks :
      (d : RagDocument) (total i : ℕ) (chunks : List Text) (es : List (List F)) (s : RagSystem F)
      → Matches chunks es
      → IsIndexed s
      → IsIndexed (add_chunks floats d total i chunks es s).1
  unfolding add_chunks
  IsIndexed-add_chunks d total i [] es s m h = h
  IsIndexed-add_chunks d total i (chunk ∷ chunks) [] s m h = h
  IsIndexed-add_chunks d total i (chunk ∷ chunks) (e ∷ es) s m h =
      or_stop-IsIndexed (add_chunk floats (chunk_document d total i chunk) e s) _
        (IsIndexed-add_chunk (chunk_document d total i chunk) e s
          (ap generate (chunk_document-content d total i chunk) ∙ m.0) h)
        (λ next k. IsIndexed-add_chunks d total (suc i) chunks es next m.1 k)

  -- What an operation that may not come to an end leaves, if it does.
  abbrev pub Leaves : Option (Result (Unit {0}) × RagSystem F) → Type 0
  Leaves none = Unit
  Leaves (some r) = IsIndexed r.1

  module _ (generator : EmbeddingGenerator (List F))
      (each : (ts : List Text)
        → generator.generate_embeddings ts ≡ each_embedding generate ts) where
    add_embedded-IsIndexed :
        (d : RagDocument) (chunks : List Text) (r : Result (List (List F))) (s : RagSystem F)
        → each_embedding generate chunks ≡ r
        → IsIndexed s
        → IsIndexed (add_embedded floats generator d chunks r s).1
    unfolding add_embedded
    add_embedded-IsIndexed d chunks (err e) s g h = h
    add_embedded-IsIndexed d chunks (ok es) s g h =
        IsIndexed-add_chunks d (length chunks) 0 chunks es s (Matches-each_embedding chunks es g) h

    process_document-Leaves :
        (d : RagDocument) (s : RagSystem F)
        → IsIndexed s
        → Leaves (process_document floats generator d s)
    unfolding process_document
    process_document-Leaves d s h =
        elim (split_text s.text_splitter d.content)
          as (λ (o : Option (List Text)). Leaves (elim o [
            | none ↦ none
            | some chunks ↦
                some
                  (add_embedded floats generator d chunks (generator.generate_embeddings chunks) s)
          ])) [
            | none ↦ tt
            | some chunks ↦
                add_embedded-IsIndexed d chunks (generator.generate_embeddings chunks) s
                  (sym (each chunks)) h
          ]

    or_next-Leaves :
        (r : Option (Result (Unit {0}) × RagSystem F))
        (next : RagSystem F → Option (Result (Unit {0}) × RagSystem F))
        → Leaves r
        → ((s : RagSystem F) → IsIndexed s → Leaves (next s))
        → Leaves (or_next floats generator r next)
    or_next-Leaves none next h k = tt
    or_next-Leaves (some (err e, s)) next h k = h
    or_next-Leaves (some (ok done, s)) next h k = k s h

    -- Adding documents, up to the first error, and also then, keeps the index right: every embedding
    -- in the store belongs to the document with its number. The conditions: the generator gives
    -- for several texts what it gives for each, and the index was right before.
    pub add_documents-Leaves :
        (ds : List RagDocument) (s : RagSystem F)
        → IsIndexed s
        → Leaves (add_documents floats generator ds s)
    unfolding add_documents
    add_documents-Leaves [] s h = h
    add_documents-Leaves (d ∷ ds) s h =
        or_next-Leaves (process_document floats generator d s) _ (process_document-Leaves d s h)
          (λ next k. add_documents-Leaves ds next k)
