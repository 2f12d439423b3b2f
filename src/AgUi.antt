-- ===== src/AgUi.antt =====
-- The AG-UI protocol: crates/gola-ag-ui-types, crates/gola-ag-ui-server and the handler of crates/gola-core
-- that runs an agent for a client.
pub mod Types
pub mod Authorization
pub mod Events
pub mod Handler
pub mod Sse
pub mod Client
