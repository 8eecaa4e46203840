-- ===== src/Extractor.antt =====
-- `TcpTlsHostnameExtractor` of include/hostname_extractor.hpp and src/hostname_extractor.cpp: the
-- flow table, the ring of blocked flows, the callbacks of the reassembler and the life of a packet.
pub mod Table
pub mod State
pub mod Ring
pub mod Callbacks
pub mod Feed
pub mod Conserve
pub mod Stable
pub mod Blocked
pub mod Reached
pub mod Justified
pub mod Resolved
pub mod Idle
pub mod Fresh
pub mod Isolated
pub mod Followed
