-- ===== src/Wire.antt =====
-- The binary framings of vectordbbench/rostam/rostam.py, "RVB1" for points and "RVQ1" for queries.
pub mod Bulk
pub mod Query
pub mod Layout
pub mod Repeat
pub mod BulkRoundTrip
pub mod QueryRoundTrip
