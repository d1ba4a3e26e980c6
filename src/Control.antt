-- ===== src/Control.antt =====
-- core/control: the decisions of the daemon that do not touch the operating system.
pub mod Candidates
pub mod Probe
pub mod Tracker
pub mod Proxy
pub mod Protect
pub mod State
pub mod Success
pub mod Switch
pub mod Cascade
pub mod Walk
pub mod Connect
pub mod Recovery
pub mod Tags
pub mod Rendering
