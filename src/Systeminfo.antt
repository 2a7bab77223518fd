-- ===== src/Systeminfo.antt =====
-- What is known of the system (convert2rhel/systeminfo.py). Commands, files, and the words and the
-- numbers of texts are parameters.
pub mod Version
pub mod Config
pub mod Services
pub mod Laws
mod Tests
