-- ===== src/Routing.antt =====
-- src/routing.rs: the tree of buckets, with the nodes also by their address. `Bucket` has one
-- bucket, `Tree` the tree and its traversals, `Table` the whole table and its operations.
pub mod Bucket
pub mod Tree
pub mod Table
pub mod Queries
pub mod BucketLaws
pub mod Cache
pub mod Growth
pub mod Shape
pub mod Total
pub mod Upkeep
pub mod Pruning
pub mod Neighbors
mod Tests
