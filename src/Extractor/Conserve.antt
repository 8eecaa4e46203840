-- ===== src/Extractor/Conserve.antt =====
-- About the packets that the extractor has: those it holds and those it has decided, counted by id.
pub mod Tables
pub mod Steps
pub mod Callbacks
pub mod Settle
pub mod Sweep
pub mod Track
pub mod Feed
pub mod Flush
