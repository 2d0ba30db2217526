-- ===== src/Utils.antt =====
-- adapter/utils/: the event stream of a chat reply, and the fan-out over items.
pub mod Sse
pub mod Fanout
