-- ===== src/Middleware.antt =====
-- adapter/middleware/: what stands between the server and the application.
pub mod BodyLimit
pub mod RateLimit
