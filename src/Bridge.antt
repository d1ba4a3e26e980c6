-- ===== src/Bridge.antt =====
-- core-bridge: what the bridge to the mobile clients adds to the core.
pub mod Order
