-- ===== src/Client.antt =====
-- pkg/app/client: the delays between retries and the weighted load balancer.
pub mod Retry
pub mod Weighted
mod Tests
