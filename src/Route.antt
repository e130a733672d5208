-- ===== src/Route.antt =====
-- pkg/route: the router of pkg/route/tree.go.
pub mod Tree
pub mod Text
pub mod Seek
pub mod Find
pub mod Formed
pub mod Routes
pub mod Insert
pub mod AddRoute
pub mod Engine
mod Tests
