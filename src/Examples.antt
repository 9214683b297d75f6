-- ===== src/Examples.antt =====
-- Tests of the model, and a concrete input for each theorem with a premise.
pub mod Data
pub mod Texts
pub mod Requests
pub mod Settling
pub mod Streaming
pub mod Posting
pub mod Scanning
pub mod Aliases
pub mod Paging
pub mod Proxying
pub mod Serving
