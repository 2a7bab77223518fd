-- ===== src/Subscription.antt =====
-- The subscription of the system (convert2rhel/subscription.py), by state passing over the outside
-- world: calls of subscription-manager and of its D-Bus service are parameters. Rollback composes it
-- with the changes of convert2rhel/backup/subscription.py.
pub mod Commands
pub mod Command
pub mod Register
pub mod Attempts
pub mod Needed
pub mod Retries
pub mod Bound
pub mod Success
pub mod Shutdown
pub mod Arguments
pub mod Missing
pub mod Requests
pub mod Rollback
mod Tests
