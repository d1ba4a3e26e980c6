-- ===== src/Routing.antt =====
-- core/routing: the options of the routing, the domain suffixes of its rules, the presets, the rule
-- sets on disk, and the rules of the route and of the dns block.
pub mod Suffixes
pub mod Options
pub mod Files
pub mod Presets
pub mod Route
pub mod Dns
