-- ===== src/Protection.antt =====
-- core/protection: the persistent host guard, and the filters that it installs.
pub mod Guard
pub mod Policy
pub mod Dns
