-- ===== src/Free.antt =====
-- ideas/free: an allocator that hands out the slots of pools, marked in bitsets.
pub mod Word
pub mod Count
pub mod Bitset
pub mod Node
pub mod Links
pub mod NodeRing
pub mod Freelist
