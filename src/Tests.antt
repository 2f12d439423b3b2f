-- ===== src/Tests.antt =====
-- Runs at concrete inputs, some of them the ones of the source's own tests, and every theorem at an
-- input that meets its hypotheses.
mod Validator
mod Memory
mod Loops
mod Cache
mod Models
mod Splitter
mod Agent
mod Run
mod Control
mod Retrieval
mod Config
mod Polling
mod Stream
mod Defaults
mod Providers
mod OpenAi
