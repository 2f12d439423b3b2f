-- ===== src/Tests/Retrieval.antt =====
-- Tests of the vector store and the retrieval of crates/gola-core/src/rag. The numbers are natural, and the
-- embedding of a text counts two of its bytes.
use mathlib.Core.List.{Perm}
use mathlib.Core.List.Perm
use gola.Prelude.{
  ℕ, ◌+◌, ◌-◌, ◌*◌, ◌≤◌, ◌≡◌, refl, true, none, some, List, [], ◌∷◌, ◌++◌, map, length, retain,
  Text, codes, arith, ltb, leb, ◌==◌, put, lookup, sort_by, InOrder, AllBefore, decimal, same,
  remove,
}
use Prim.Native.Nat.{min}
use gola.Core.Errors.{ok}
use gola.Rag.Context.{RagDocument, new_document, RetrievedContext}
use gola.Rag.Vectors.{
  Floats, SearchResult, InMemoryVectorStore, not_behind, scored, search, cosine_similarity,
  euclidean_distance,
}
use gola.Rag.Vectors
use gola.Rag.Vectors.Best.{search-best}
use gola.Rag.Splitter.{split_text}
use gola.Rag.System.{
  EmbeddingGenerator, RagSystem, RagConfig, each_embedding, add_documents, retrieve, new,
  chunk_document,
}
use gola.Rag.System.Indexed.{IsIndexed, Leaves, add_documents-Leaves}
use gola.Rag.Cache.{InMemoryEmbeddingCache, default_config, new_entry}
use gola.Rag.Cache
use gola.Rag.Cached.{generate_embeddings}
use gola.Rag.Cached.Same.{IsRight, generate_embeddings-same}
use gola.Rag.System.Relevant.{AllNear, retrieve-AllNear}

abbrev naturals : Floats
naturals = record {
  F = ℕ;
  zero_f = 0;
  infinity = 1000;
  plus = λ a b. a + b;
  minus = λ a b. a - b;
  times = λ a b. a * b;
  over = λ a b. a;
  sqrt = λ a. a;
  is_zero = λ a. a == 0;
  less = ltb;
  at_least = λ a b. leb b a;
}

abbrev counts : Text → List ℕ
counts t = length (retain (λ c. c == 97) t) ∷ length (retain (λ c. c == 98) t) ∷ []

abbrev generator : EmbeddingGenerator (List ℕ)
generator = record {
  generate_embedding = λ t. ok (counts t);
  generate_embeddings = each_embedding (λ t. ok (counts t));
}

abbrev config : RagConfig ℕ
config = record { chunk_size = 100; chunk_overlap = 0; top_k = 2; similarity_threshold = 2 }

abbrev documents : List RagDocument
documents =
    new_document (codes "aab") (codes "one.txt")
    ∷ new_document (codes "bbb") (codes "two.txt")
    ∷ new_document (codes "aaaa") (codes "three.txt")
    ∷ []

abbrev store : InMemoryVectorStore ℕ
store = record {
  embeddings =
      (0, counts (codes "aab")) ∷ (1, counts (codes "bbb")) ∷ (2, counts (codes "aaaa")) ∷ [];
  embedding_dimension = some 2;
}

abbrev in_place : List (ℕ × List ℕ) → List (ℕ × List ℕ)
in_place es = es

abbrev best : List (SearchResult ℕ)
best =
    record {
      document_id = 2;
      score = 4;
      distance = euclidean_distance naturals (counts (codes "a")) (counts (codes "aaaa"));
    }
    ∷ record {
      document_id = 0;
      score = 2;
      distance = euclidean_distance naturals (counts (codes "a")) (counts (codes "aab"));
    }
    ∷ []

program : Unit {0}
unfolding search sort_by cosine_similarity euclidean_distance retrieve add_documents split_text
    each_embedding chunk_document put lookup remove same decimal Vectors.add_document
program = tt

finds_two : search naturals in_place store (counts (codes "a")) 2 ≡ ok best
unfolding program
finds_two = refl

search-best_example :
    (others : List (SearchResult ℕ)) × Perm
      (best ++ others)
      (map (scored naturals (counts (codes "a"))) store.embeddings)
    × (length best ≡ min 2 (length store.embeddings))
    × InOrder (not_behind naturals) best
    × AllBefore (not_behind naturals) best others
search-best_example =
    search-best naturals in_place (counts (codes "a")) 2 (λ x. true) (λ x y h. ground (arith, h))
      (λ x y z p q r h k. ground (arith, h, k)) store best (refl, (refl, (refl, tt)))
      (Perm.refl store.embeddings) finds_two

empty-IsIndexed : IsIndexed naturals generator.generate_embedding (new naturals config)
empty-IsIndexed = (omega arith, λ n. tt)

add_documents-Leaves_example :
    Leaves naturals generator.generate_embedding
      (add_documents naturals generator documents (new naturals config))
add_documents-Leaves_example =
    add_documents-Leaves naturals generator.generate_embedding generator (λ ts. refl) documents
      (new naturals config) empty-IsIndexed

abbrev system : RagSystem ℕ
system = record (new naturals config) {
  vector_store = store;
  documents = documents;
  document_id_counter = 3;
}

abbrev context : RetrievedContext ℕ
context = record {
  documents =
      new_document (codes "aaaa") (codes "three.txt")
      ∷ new_document (codes "aab") (codes "one.txt")
      ∷ [];
  sources = codes "three.txt" ∷ codes "one.txt" ∷ [];
  scores = 4 ∷ 2 ∷ [];
}

retrieves_two : retrieve naturals generator in_place (codes "a") none system ≡ ok context
unfolding program
retrieves_two = refl

system-IsIndexed : IsIndexed naturals generator.generate_embedding system
system-IsIndexed = (
  omega arith,
  λ n. (
    (new_document (codes "aab") (codes "one.txt"), refl, refl),
    (
      (new_document (codes "bbb") (codes "two.txt"), refl, refl),
      ((new_document (codes "aaaa") (codes "three.txt"), refl, refl), tt),
    ),
  ),
)

retrieve-AllNear_example :
    (q : List ℕ) × (generator.generate_embedding (codes "a") ≡ ok q)
    × AllNear naturals generator q 2 context.documents context.scores
    × (length context.documents ≤ 2)
retrieve-AllNear_example =
    retrieve-AllNear naturals generator in_place system (codes "a") none context system-IsIndexed
      (omega arith) (λ P es h. h) retrieves_two

abbrev batched : EmbeddingGenerator (List ℕ)
batched = record {
  generate_embedding = λ t. ok (counts t);
  generate_embeddings = λ ts. ok (map counts ts);
}

-- A cache that has the embedding of one of two texts.
abbrev half : InMemoryEmbeddingCache (List ℕ)
half = record (Cache.new default_config) {
  cache = (codes "ab", new_entry (counts (codes "ab")) 5) ∷ [];
}

half-IsRight : IsRight counts half
half-IsRight = (refl, tt)

abbrev two_texts : List Text
two_texts = codes "ab" ∷ codes "bb" ∷ []

generate_embeddings-same_example :
    ((generate_embeddings (λ es. es) batched half (λ i. 7) (λ i. 8) two_texts).0
      ≡ batched.generate_embeddings two_texts)
    × IsRight counts (generate_embeddings (λ es. es) batched half (λ i. 7) (λ i. 8) two_texts).1
generate_embeddings-same_example =
    generate_embeddings-same counts (λ es. es) batched (λ P es h. h) (λ ts. refl) half (λ i. 7)
      (λ i. 8) two_texts half-IsRight
