-- ===== src/Vendors.antt =====
-- script_store/: the scripts of the vendors, as functions of the context.
pub mod Context
pub mod Outcomes
pub mod OpenAi
pub mod Hunyuan
