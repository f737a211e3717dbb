-- ===== src/Sift/Redis.antt =====
-- What sift1m/redis_bench.py uses of redis-py: the values of a RESP2 reply and the commands.
pub mod Load
pub mod Reply
pub mod Index
pub mod Bench
use rostam_bench.Base.{ℕ, List, ◌++◌}
use rostam_bench.Base.Int.{ℤ, pos}
use rostam_bench.Python.Errors.{Text, Bytes}
use rostam_bench.Python.Decimal.{decimal}
use rostam_bench.Python.Dumps.{codes}
use rostam_bench.PyClient.Socket.{Outcome}

mutual
  pub data Value : Type 0 where
    blob : Bytes → Value
    text : Text → Value
    number : ℤ → Value
    array : Values → Value

  pub data Values : Type 0 where
    stop : Values
    item : Value → Values → Values

-- `IDX` and `PREFIX`
abbrev pub idx : Text
idx = codes "sift_idx"

abbrev pub prefix : Text
prefix = codes "v:"

-- `f"{PREFIX}{i}"`
abbrev pub key_of : ℕ → Text
key_of i = prefix ++ decimal i

-- The parameters of `FT.CREATE` that the script chooses.
pub record Schema : Type 0 where
  pub name : Text
  pub key_prefix : Text
  pub dim : ℕ
  pub m : ℕ
  pub ef_construction : ℕ

-- `hset(key, mapping={"vec": bytes})`
pub record Hset : Type 0 where
  pub key : Text
  pub vec : Bytes

pub record FtSearch : Type 0 where
  pub name : Text
  pub k : ℕ
  pub ef_runtime : ℕ
  pub vec : Bytes

-- `drop_index` raises `redis.ResponseError` where there is no such index.
pub record Redis (S : Type 0) : Type 0 where
  pub ping : S → Outcome S
  pub drop_index : Text → S → Outcome S
  pub create_index : Schema → S → Outcome S
  -- `pipe.execute()` on the commands in the pipeline
  pub execute : List Hset → S → Outcome S
  pub info : Text → S → Outcome (Values × S)
  pub search : FtSearch → S → Outcome (Values × S)
  -- `time.sleep(seconds)`
  pub sleep : ℕ → S → S
  -- `tobytes` of a float32 row
  pub tobytes : List ℕ → Bytes
