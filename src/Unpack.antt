-- ===== src/Unpack.antt =====
-- core/unpack: the budget of an extraction.
pub mod Budget
pub mod Detect
pub mod Paths
pub mod Members
pub mod Extractor
pub mod Steps
pub mod Formats
pub mod Archives
pub mod Walks
mod Samples
mod Trees
