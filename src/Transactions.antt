-- ===== src/Transactions.antt =====
-- The transactions that replace the packages (convert2rhel/pkgmanager/handlers), over the objects of
-- yum and dnf, which are parameters.
pub mod Session
pub mod Rounds
pub mod Yum
pub mod Dnf
pub mod Retries
pub mod Once
pub mod Ends
pub mod Done
pub mod Unavailable
pub mod Processed
mod Tests
