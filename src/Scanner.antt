-- ===== src/Scanner.antt =====
-- pkg/backend/scanner: the scan of a range for a list, a stream, a count or a compaction. Receiver
-- collects the results, Worker scans one partition, Partitions puts the workers together.
pub mod Receiver
pub mod Worker
pub mod Partitions
pub mod Visible
pub mod Steps
pub mod Reads
pub mod Compaction
mod Tests
pub mod Ranges
pub mod Borders
pub mod Joined
