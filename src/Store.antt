-- ===== src/Store.antt =====
-- include/workload.h: the state that the components share. A file and a disk stand at addresses of
-- two heaps, a pointer is an address and NULL is `none`.
pub mod Types
pub mod Db
pub mod Ranking
pub mod Access
pub mod Assign
