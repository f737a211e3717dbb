-- ===== src/Sift.antt =====
-- The SIFT-1M benchmarks of sift1m/: what they measure, and the service each of them measures.
pub mod Quantile
pub mod Latency
pub mod Worker
pub mod Pool
pub mod Answers
pub mod Grpc
pub mod Qdrant
pub mod Sweep
pub mod Redis
pub mod Hnswlib
