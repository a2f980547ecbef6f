-- ===== src/Tests.antt =====
-- Runs of the model, and every theorem that has a condition at a case that meets it.
pub mod Rates
pub mod Headers
pub mod Files
pub mod Clients
pub mod Routes
pub mod Bodies
pub mod Servers
pub mod Extraction
pub mod Streamed
pub mod Dispatch
pub mod Secured
pub mod Deferral
