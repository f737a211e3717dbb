-- ===== src/Sift/Qdrant.antt =====
-- What sift1m/qdrant_bench.py and sift1m/qdrant_latency_qps.py use of qdrant-client, and the build of
-- the collection in both. The service, and the time that passes in `time.sleep`, are functions on a
-- state of the world.
pub mod Build
pub mod LatencyQps
pub mod Bench
use rostam_bench.Base.{ℕ, Bool, Option, List}
use rostam_bench.Python.Errors.{Text}
use rostam_bench.PyClient.Socket.{Outcome}

-- The arguments of `create_collection`: `on_disk` and `quantization` are given by qdrant_bench.py
-- only. The one quantization is to int8 with quantile 0.99, kept in memory.
pub record Collection : Type 0 where
  pub name : Text
  pub size : ℕ
  pub on_disk : Option Bool
  pub m : ℕ
  pub ef_construct : ℕ
  pub int8 : Bool

-- Of the answer of `get_collection`: `str(info.status)` and `indexed_vectors_count`.
pub record Info : Type 0 where
  pub status : Text
  pub indexed : Option ℕ

pub record Query : Type 0 where
  pub collection : Text
  pub query : List ℕ
  pub limit : ℕ
  pub hnsw_ef : ℕ

pub record QdrantClient (S : Type 0) : Type 0 where
  pub collection_exists : Text → S → Outcome (Bool × S)
  pub delete_collection : Text → S → Outcome S
  pub create_collection : Collection → S → Outcome S
  -- the vectors with the ids from 0 on, the batch size and the number of uploading processes
  pub upload_collection : Text → List (List ℕ) → ℕ → ℕ → S → Outcome S
  pub get_collection : Text → S → Outcome (Info × S)
  -- the ids of the points
  pub query_points : Query → S → Outcome (List ℕ × S)
  -- `time.sleep(seconds)`
  pub sleep : ℕ → S → S
