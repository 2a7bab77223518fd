-- ===== src/Utils.antt =====
-- convert2rhel/utils/__init__.py: texts for messages, secrets on the command line, and the removal
-- and the download of packages.
pub mod Format
pub mod Secrets
pub mod Remove
pub mod Download
pub mod Flatten
mod Tests
