-- ===== src/Singbox.antt =====
-- core/singbox: what the builder of the engine's configuration asks of a node.
pub mod Validate
pub mod Tags
pub mod Outbound
pub mod Nodes
pub mod Tun
pub mod Build
