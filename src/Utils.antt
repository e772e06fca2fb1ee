-- ===== src/Utils.antt =====
-- src/utils: the sorted set, the disjoint segments of a range, the layout of a structure, random
-- strings.
pub mod FlatSet
pub mod Segments
pub mod StructInfo
pub mod Random
mod Tests
