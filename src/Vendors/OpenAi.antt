-- ===== src/Vendors/OpenAi.antt =====
-- script_store/openai/images@v1.py: OpenAI's own generations and edits.
pub mod Asking
pub mod Reply
pub mod Script
pub mod Parking
pub mod Delivery
pub mod Picture
pub mod Editing
