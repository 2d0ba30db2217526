-- ===== src/Pictures.antt =====
-- adapter/ctxapi/: what a script asks of the context about pictures. `Codec` has codec.py, `Fetch` and
-- `Shapes` have image_ref.py and the upload of storage.py.
pub mod Codec
pub mod Fetch
pub mod Shapes
