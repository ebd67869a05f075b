-- ===== src/Tests.antt =====
-- Concrete inputs for the program and its parts.
pub mod Realloc
pub mod Hashes
pub mod Texts
pub mod Program
pub mod Bufs
pub mod Tries
pub mod Expressions
pub mod Rings
pub mod Slabs
pub mod Pools
pub mod Circles
pub mod Heaps
pub mod Arrays
pub mod Trees
