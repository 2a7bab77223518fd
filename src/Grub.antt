-- ===== src/Grub.antt =====
-- The boot loader under UEFI (convert2rhel/grub.py). Commands, files and regular expressions are
-- parameters.
pub mod Paths
pub mod Devices
pub mod Entries
pub mod Replace
pub mod Removal
pub mod Present
mod Tests
