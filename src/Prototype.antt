-- ===== src/Prototype.antt =====
-- Prototype: the tandem index, a skip list in DRAM over a sorted list of values in persistent
-- memory.
pub mod Nodes
pub mod Pool
pub mod ValueList
pub mod Skiplist
pub mod Tandem
