-- ===== src/Resolver.antt =====
-- pkg/master_resolver: which nodes are the master and the replicas, and how long to wait when that
-- cannot be told.
pub mod Network
pub mod PtrCache
pub mod Names
pub mod Nodes
pub mod Addresses
pub mod Loops
pub mod New
pub mod Untracked
pub mod Backoff
pub mod Turns
pub mod Retries
pub mod Outages
pub mod Vouching
pub mod Updates
pub mod Tests
pub mod ReachTests
pub mod Reach
