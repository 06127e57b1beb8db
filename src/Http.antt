-- ===== src/Http.antt =====
-- backend/internal/httpapi: the handlers of the HTTP API, between net/http and the components.
pub mod Response
pub mod Encoded
pub mod Session
pub mod Answers
pub mod Page
pub mod Views
pub mod Terminal
pub mod Attached
pub mod Recorder
pub mod Logged
pub mod Router
pub mod Identities
