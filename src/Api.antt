-- ===== src/Api.antt =====
-- adapter/api/: the client's side. The bodies of the four entries, their translation to the canonical
-- image request and back, and the pipeline that an entry runs.
pub mod Images
pub mod Parts
pub mod Chat
pub mod Reply
pub mod Responses
pub mod Pipeline
pub mod Form
