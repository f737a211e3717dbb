-- ===== src/Client.antt =====
-- `class Rostam` of vectordbbench/rostam/rostam.py: the client's state, its methods, and proofs.
pub mod Http
pub mod State
pub mod Session
pub mod Create
pub mod Connect
pub mod Fresh
pub mod Insert
pub mod Filter
pub mod Search
pub mod Invariant
pub mod Acknowledged
pub mod Slices
pub mod RoundPoints
pub mod LoopPoints
pub mod Sent
pub mod Fallback
pub mod Load
pub mod Meaning
pub mod Calls
