-- ===== src/Tests.antt =====
-- The theorems at concrete inputs.
mod Protection
mod DnsWire
mod Tunguard
mod Fallback
mod Profile
mod Dnspick
mod Routing
mod Route
mod Nodecheck
mod Control
mod Walk
mod Recovery
mod Switch
mod Build
