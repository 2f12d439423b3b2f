-- ===== src/Lib.antt =====
-- Gola runs language model agents that a configuration file defines. This library models the parts
-- of crates/gola-core that decide what the model is sent, what is remembered and what a client is
-- shown, with the events of the AG-UI protocol and their client, and proves what makes them correct.
--
-- Core (crates/gola-core/src/core_types.rs, errors.rs): messages, tool calls, errors. A `String` is
-- the list of its UTF-8 bytes (Prelude/Texts), so that `len` is the length of the list.
-- Core/Action has methods that change a state and may fail: what was changed before an error stays.
-- Agent (crates/gola-core/src/agent.rs, guardrails.rs): the agent. Agent.antt has its state, the
-- authorization of tool calls and the notes on their results, World what stands around it, Tools
-- and Dispatch how a tool call is executed, Step one step and the run, Construction how an agent
-- is made and what a client changes between runs. `Authorization` is about many checks in a row,
-- `Observations` about the count of failures, `Records` about what the validator finds in what the
-- agent sends, Tools/Failures about a tool that fails, Dispatch/Stops about which calls end a run,
-- `Invariants` about what every change of the state keeps. Of the run, Step/Asked is about the calls
-- that the user sees, `Closed` about runs in which nothing is granted, `Limits` about the number of
-- steps, `Window` about the length of the memory, `Failing` about a tool that has failed twice, `Ends`
-- about what the run gives.
-- Agent/Polling (crates/gola-core/src/polling_authorization_handler.rs, with the types of
-- crates/gola-ag-ui-types/src/authorization.rs): a handler of authorization that keeps a table of
-- pending requests, in steps between the awaits of its tasks. `Answers` is about what the tasks
-- that wait are answered.
-- Control (crates/gola-core/src/tools/control_plane): the tools that end a run or report progress,
-- and their server. `Done` and `Progress` are about a step of the agent that calls them.
-- Config/Types (crates/gola-core/src/config/types.rs): the records of a configuration and their
-- defaults, a child for each section. Config/Check is the check of one; its `Accepts` describes the
-- configurations it takes.
-- Config/Defaults (crates/gola-core/src/config/defaults/traits.rs): the registry of providers of
-- defaults and the builder. `Highest` is about the defaults it finds, `Merge` is the merge of a
-- configuration with defaults, Merge/Picked describes each part of the merged one.
-- Config/Validation (crates/gola-core/src/config/validation.rs): the schema validator of inputs and
-- outputs. `Retry` is about the correction of outputs and the attempts at it.
-- Llm/Validator (crates/gola-core/src/llm/message_validator.rs): the scan for calls with no
-- response and responses with no call, and their repair. `Pending` describes the scan with no
-- state, `Order` the order of repair, `Repair` what the repair does to each message, `Sound` that
-- nothing is left to repair, `Kept` what the repair leaves alone, `Truncate` the cut of long texts.
-- Llm/Recovery (crates/gola-core/src/llm/auto_recovery_llm.rs): a model in front of the model,
-- which repairs the messages with the validator, and asks again after an error. `Plain` and `Clean`
-- are about what it sends, `Calls` about how often.
-- Llm/Providers/Anthropic, OpenAi and Gemini (crates/gola-core/src/llm/providers/anthropic.rs,
-- openai.rs, gemini.rs): clients of services. Of the first, `Response` has the request and the answer,
-- `Contents` and `Order` are about what is sent of a conversation, and in which order. Of the
-- second, `Parser` reads the answer, and `Read` is about reading what was written; of the third,
-- `Answer` has the request and the answer, and `Read` is about reading what was sent.
-- Llm/Truncation (crates/gola-core/src/llm/context_truncation.rs, summarizer.rs): a model in front
-- of the model, which shortens the conversation when there is no room for it. `Window` and
-- `Last` are about what is kept, `Attempts` about what the retries end with.
-- AgUi/Types, AgUi/Authorization, AgUi/Events (crates/gola-ag-ui-types/src): the types and events of
-- the AG-UI protocol. AgUi/Handler (crates/gola-core/src/ag_ui_handler.rs) turns an input into a run
-- of the agent, as a stream of events; `Protocol` is about the order of the events, `Input` about the
-- task that is taken from an input, `Guarded` about the calls of a run and its length.
-- AgUi/Sse (crates/gola-ag-ui-server/src/sse.rs, crates/gola-ag-ui-types/src/events.rs): events as
-- server-sent events, with `Read` on their reading. AgUi/Client (crates/gola-agent-client/src): the
-- clients over HTTP and in the same process, with `Received` on what they receive.
-- Loops (crates/gola-core/src/loop_detection): the detector of repeated tool calls. `Counts` is
-- about its window and its counters, `Exact` about what it reports.
-- Rag/Cache (crates/gola-core/src/rag/cache.rs): the cache of embeddings in memory. `Evict` is
-- about what an eviction removes, `Reads` about what readers see,
-- `Frequency` about the least frequently used strategy.
-- Rag/Cached (crates/gola-core/src/rag/embeddings.rs): the generator of embeddings with that cache in
-- front of it; `Same` compares it with the generator alone.
-- Rag/Context, Rag/Vectors, Rag/System (crates/gola-core/src/rag/mod.rs, vector_store.rs,
-- rag_system.rs): documents, the store of embeddings with its search, and the system that adds and
-- retrieves documents. Vectors/Best is about the search, System/Indexed about what adding keeps,
-- System/Relevant about what is retrieved.
-- Rag/Splitter (crates/gola-core/src/rag/splitter.rs): the division of documents into chunks.
-- `Length` is about one round of the split by length, `Finishes` about when it ends and what it
-- gives, `Languages` has the separators of the languages.
-- Memory (crates/gola-core/src/memory): the sliding window, the summary and the hybrid of both.
-- `Context` is the choice of messages that window and hybrid share, `Prompt` what the model is
-- asked, `Orphans` what the validator finds in a context.
-- A run is a loop of steps. A step sends the model the prompt, with retrieved
-- documents where there is a RAG system, and the context of the memory, and takes the tool calls of
-- the answer one by one: after the detector of loops the control plane, or, when the user has
-- granted it, the code executor, the search or a tool, and what that gave goes into the memory. The
-- fields `requests`, `sent` and `runs` of the agent log what the user was asked, what the steps sent
-- the model, and what was run of the tools of the registry, of code and of searches for calls of the
-- model, the newest first; no code reads them. Not in these logs are the tools of the control plane and
-- the retrieval for the task, which the code runs in every mode and without asking, and the
-- requests of a memory that has the same model write its summaries.
-- crates/gola-core/src/llm/utils.rs puts Truncation in front of Recovery in front of a client.
-- Prelude: texts, lists, searches in lists, a stable sort, and how the proofs are automated.
-- Tests: runs at concrete inputs and each theorem at one.
--
-- The model behind a memory is a parameter, a function from messages to a response or an error. In
-- front of Recovery and Truncation its answer may depend on every earlier request (Llm/Model), and
-- that of a tool on every earlier run. So are the RAG system of an agent and the guardrail's
-- handler, f32 and f64 numbers with the operations that the source makes of them, hashes, the order
-- of hash maps, the clock, serde_json, jsonschema, and the Debug format of lists.
-- The run recurses on the steps that are left, the retry on the attempts. The split by length runs on fuel, since its loop need
-- not end: a round for each byte and one more are enough for every run that ends. All else recurses
-- on its data; `decimal` writes at most 20 digits, as many as a 64-bit number has.
--
-- serde_json is a parameter with the documented laws of what `json!` makes, and a text is said to be
-- read back where a value's text must be. A read of a missing key of an object, which panics, is none.
--
-- Not modelled: log lines and the trace handler, which only listen; HTTP and processes, so the
-- clients of embeddings, of authorization (but the polling handler) and of MCP servers, and the
-- runtimes and containers of the executors; the files of the cache, of the vector store and of
-- configurations; the providers of defaults, which look at the environment; the parser of
-- responses, which repeats that of the OpenAI client;
-- the HTTP server of AG-UI (crates/gola-ag-ui-server but sse.rs), the command line and the terminal; the other
-- version of the AG-UI types in crates/gola-ag-ui-types/ag-ui-types, which nothing of the program uses.
pub mod Prelude
pub mod Core
pub mod Llm
pub mod Agent
pub mod AgUi
pub mod Config
pub mod Control
pub mod Memory
pub mod Loops
pub mod Rag
mod Tests
