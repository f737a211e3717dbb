-- ===== src/Charts/Script.antt =====
-- What the script netkv/charts/mkcharts.py draws, behind the functions that draw. Throughputs and the
-- numbers of the axis are counted in tenths.
use rostam_bench.Base.{Bool, false, ◌||◌, none, some, List, [], ◌∷◌, list_eq, if◌then◌else◌}
use rostam_bench.Python.Errors.{Text}
use rostam_bench.Python.Dumps.{codes}
use rostam_bench.PyClient.Socket.{Outcome}
use rostam_bench.Charts.Svg.{Format}
use rostam_bench.Charts.Line.{Series, line_chart}
use rostam_bench.Charts.Bar.{bar_chart}

-- `LOCAL_GET`
abbrev pub local_get : List Series
local_get =
    (codes "Rostam", 3602 ∷ 7261 ∷ 7324 ∷ 7051 ∷ [])
    ∷ (codes "Memcached", 3678 ∷ 6829 ∷ 6817 ∷ 6671 ∷ [])
    ∷ (codes "Dragonfly", 2341 ∷ 5320 ∷ 5516 ∷ 5187 ∷ [])
    ∷ (codes "Aerospike", 3184 ∷ 5106 ∷ 5169 ∷ 5136 ∷ [])
    ∷ (codes "Valkey", 2103 ∷ 2391 ∷ 2279 ∷ 2213 ∷ [])
    ∷ (codes "Redis", 2132 ∷ 2283 ∷ 2196 ∷ 2085 ∷ [])
    ∷ (codes "KeyDB", 1925 ∷ 2063 ∷ 2088 ∷ 1963 ∷ [])
    ∷ []

-- `LOCAL_PUT`
abbrev pub local_put : List Series
local_put =
    (codes "Rostam", 3570 ∷ 6880 ∷ 6992 ∷ 6874 ∷ [])
    ∷ (codes "Memcached", 3635 ∷ 6584 ∷ 6715 ∷ 6645 ∷ [])
    ∷ (codes "Dragonfly", 2236 ∷ 4870 ∷ 5151 ∷ 5065 ∷ [])
    ∷ (codes "Aerospike", 3014 ∷ 4991 ∷ 4856 ∷ 4761 ∷ [])
    ∷ (codes "Valkey", 2147 ∷ 2298 ∷ 2241 ∷ 2143 ∷ [])
    ∷ (codes "KeyDB", 1993 ∷ 2106 ∷ 2137 ∷ 2083 ∷ [])
    ∷ (codes "Redis", 1676 ∷ 1975 ∷ 2046 ∷ 1953 ∷ [])
    ∷ []

-- `FAST`
abbrev pub fast : List Text
fast = codes "Rostam" ∷ codes "Memcached" ∷ codes "Dragonfly" ∷ codes "Aerospike" ∷ []

-- `FAMILY`
abbrev pub family : List Text
family = codes "Rostam" ∷ codes "Valkey" ∷ codes "Redis" ∷ codes "KeyDB" ∷ []

unfoldable pub is_in : Text → List Text → Bool
unfolding list_eq
is_in name [] = false
is_in name (n ∷ names) = list_eq n name || is_in name names

unfoldable pub pick : List Series → List Text → List Series
unfolding is_in
pick [] names = []
pick ((name, vals) ∷ rows) names =
    let rest = pick rows names in if is_in name names then (name, vals) ∷ rest else rest

-- `RF2_ALL`
abbrev pub rf2_all : List Series
rf2_all =
    (codes "Rostam", 356 ∷ 809 ∷ 1136 ∷ [])
    ∷ (codes "Aerospike", 380 ∷ 570 ∷ 859 ∷ [])
    ∷ (codes "Redis / Valkey / KeyDB", 287 ∷ 422 ∷ 439 ∷ [])
    ∷ []

-- `RF2_MASTER`
abbrev pub rf2_master : List Series
rf2_master =
    (codes "Rostam", 578 ∷ 1030 ∷ 1574 ∷ []) ∷ (codes "Aerospike", 653 ∷ 942 ∷ 1257 ∷ []) ∷ []

abbrev pub wire_sweep_series : List Series
wire_sweep_series =
    (codes "Rostam", 389 ∷ 1336 ∷ 1475 ∷ 1504 ∷ [])
    ∷ (codes "Memcached", 389 ∷ 1346 ∷ 1475 ∷ 1498 ∷ [])
    ∷ (codes "Dragonfly", 307 ∷ 1242 ∷ 1414 ∷ 1474 ∷ [])
    ∷ (codes "Aerospike", 371 ∷ 1281 ∷ 1250 ∷ 1224 ∷ [])
    ∷ []

abbrev pub replication_series : List Series
replication_series =
    (codes "single node RF=1", 4602 ∷ 4528 ∷ 4455 ∷ [])
    ∷ (codes "PB RF=2", 3079 ∷ 3555 ∷ 3515 ∷ [])
    ∷ (codes "raft RF=3", 1124 ∷ 1623 ∷ 1753 ∷ [])
    ∷ []

abbrev pub sharding_series : List Series
sharding_series = (codes "shard sweep @512 conns", 3294 ∷ 3463 ∷ 3357 ∷ 3493 ∷ []) ∷ []

-- A chart by its stem.
abbrev pub Page : Type 0
Page = Text × (Text → Outcome Text)

module _ (format : Format) where
  abbrev pub wire_sweep : Page
  wire_sweep = (
    codes "wire-sweep",
    λ theme.
        line_chart format theme
          (codes "GET throughput vs concurrency — single node, over the network")
          (codes
            "Hetzner CCX33, medians of 3, 0 errors. Anything at the dashed line is NIC-bound, not engine-bound.")
          (codes "8" ∷ codes "64" ∷ codes "256" ∷ codes "512" ∷ []) wire_sweep_series 1700
          (0 ∷ 500 ∷ 1000 ∷ 1500 ∷ []) (codes "concurrent connections")
          (some (
            1500,
            codes "single-RX-queue NIC ceiling ~150k — three engines tie here because of this",
          )),
  )

  abbrev pub local_get_fast : Page
  local_get_fast = (
    codes "local-get-fast",
    λ theme.
        line_chart format theme (codes "GET — the engines that scale with concurrency (loopback)")
          (codes
            "One machine, all engines in Docker, 8 pinned cores each, 0 errors. Directional: ranking, not absolutes.")
          (codes "8" ∷ codes "64" ∷ codes "256" ∷ codes "512" ∷ []) (pick local_get fast) 8000
          (0 ∷ 2000 ∷ 4000 ∷ 6000 ∷ 8000 ∷ []) (codes "concurrent connections") (none),
  )

  abbrev pub local_get_family : Page
  local_get_family = (
    codes "local-get-family",
    λ theme.
        line_chart format theme (codes "GET — the Redis family plateaus (loopback, same run)")
          (codes
            "Redis, Valkey and KeyDB execute commands single-threaded, so extra connections queue instead of adding work.")
          (codes "8" ∷ codes "64" ∷ codes "256" ∷ codes "512" ∷ []) (pick local_get family) 8000
          (0 ∷ 2000 ∷ 4000 ∷ 6000 ∷ 8000 ∷ []) (codes "concurrent connections") (none),
  )

  abbrev pub local_put_fast : Page
  local_put_fast = (
    codes "local-put-fast",
    λ theme.
        line_chart format theme (codes "PUT — the engines that scale with concurrency (loopback)")
          (codes "Same run and conditions as the GET chart.")
          (codes "8" ∷ codes "64" ∷ codes "256" ∷ codes "512" ∷ []) (pick local_put fast) 8000
          (0 ∷ 2000 ∷ 4000 ∷ 6000 ∷ 8000 ∷ []) (codes "concurrent connections") (none),
  )

  abbrev pub local_put_family : Page
  local_put_family = (
    codes "local-put-family",
    λ theme.
        line_chart format theme (codes "PUT — the Redis family plateaus (loopback, same run)")
          (codes "Same plateau on writes; Rostam shown for scale.")
          (codes "8" ∷ codes "64" ∷ codes "256" ∷ codes "512" ∷ []) (pick local_put family) 8000
          (0 ∷ 2000 ∷ 4000 ∷ 6000 ∷ 8000 ∷ []) (codes "concurrent connections") (none),
  )

  abbrev pub replication : Page
  replication = (
    codes "replication",
    λ theme.
        line_chart format theme (codes "What replication costs — PUT throughput, Rostam vs Rostam")
          (codes
            "Local, 4 cores/node, durability matched (raft -nosync -volatile-log; PB has no WAL). Directional.")
          (codes "64" ∷ codes "256" ∷ codes "512" ∷ []) replication_series 5000
          (0 ∷ 1000 ∷ 2000 ∷ 3000 ∷ 4000 ∷ 5000 ∷ []) (codes "concurrent connections") (none),
  )

  abbrev pub sharding : Page
  sharding = (
    codes "sharding",
    λ theme.
        bar_chart format theme (codes "Sharding and scale-out — PUT, 3-node PB RF=2")
          (codes "Shard count is not a throughput lever; the 2->3 node step is (see note).")
          (codes "4 shards" ∷ codes "8" ∷ codes "16" ∷ codes "32" ∷ []) sharding_series 4200
          (0 ∷ 1000 ∷ 2000 ∷ 3000 ∷ 4000 ∷ []) (codes "shards per cluster")
          (some (
            codes
              "4->8 buys ~5%, then flat. Node scale-out 2->3 at constant RF=2: 190k -> 357k (1.88x for 1.5x nodes).")),
  )

  abbrev pub rf2_commit_all : Page
  rf2_commit_all = (
    codes "rf2-commit-all",
    λ theme.
        line_chart format theme
          (codes "Replicated writes (RF=2) — ack only after a replica has the write")
          (codes
            "12-vCPU EPYC Genoa, 3 co-located nodes + generator, n=2 reps, 0 errors. Third line is Redis/Valkey/KeyDB, which overlap within ~7%.")
          (codes "8" ∷ codes "32" ∷ codes "128" ∷ []) rf2_all 1300 (0 ∷ 500 ∷ 1000 ∷ [])
          (codes "concurrent connections") (none),
  )

  abbrev pub rf2_commit_master : Page
  rf2_commit_master = (
    codes "rf2-commit-master",
    λ theme.
        line_chart format theme (codes "Same run, both engines relaxed to ack at the master")
          (codes "Worth 1.57x to Rostam and 1.58x to Aerospike — the posture flatters neither.")
          (codes "8" ∷ codes "32" ∷ codes "128" ∷ []) rf2_master 1700 (0 ∷ 500 ∷ 1000 ∷ 1500 ∷ [])
          (codes "concurrent connections") (none),
  )

  -- The calls of `emit`, in order.
  abbrev pub script : List Page
  script =
      wire_sweep ∷ local_get_fast ∷ local_get_family ∷ local_put_fast ∷ local_put_family
      ∷ replication ∷ sharding ∷ rf2_commit_all ∷ rf2_commit_master ∷ []
