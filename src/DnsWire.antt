-- ===== src/DnsWire.antt =====
-- core/dnswire/dnswire.go: the wire form of a DNS question, and the reading of a reply. A message is
-- a list of bytes. Each index and each slice is checked as Go checks it, and out of range is a
-- panic; the reader's loop runs on fuel, and running out is `stuck`.
pub mod Result
pub mod Encode
pub mod Name
pub mod Response
