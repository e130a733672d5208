-- ===== src/App.antt =====
-- pkg/app: the request context.
pub mod ByteRange
pub mod Chain
mod Tests
