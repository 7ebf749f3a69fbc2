-- ===== src/Ends.antt =====
-- Which commands end on every disk image: a run may fault, but its loops and walks come to an end.
pub mod Searches
pub mod Rules
pub mod Paths
pub mod Files
pub mod OpenFiles
pub mod Print
pub mod Commands
