-- ===== src/PyClient.antt =====
-- sift1m/rostam_py_client.py: the client of Rostam's binary protocol over a TCP socket.
pub mod Frame
pub mod Request
pub mod Socket
pub mod Receive
pub mod Response
pub mod Recall
pub mod Latency
