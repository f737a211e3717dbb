-- ===== src/Lib.antt =====
-- The Python programs of the benchmark suite: a model and its theorems.
--
-- The Python files are clients of vector databases, of which the largest is the VectorDBBench client
-- of Rostam (vectordbbench/rostam/). It is constructed from a configuration, creates a collection,
-- loads vectors in chunks of 1000, has the index built, and searches, each over HTTP. Chunks and
-- queries go over a binary wire first, and in JSON after a first rejection. The client of
-- sift1m/rostam_py_client.py speaks a binary protocol over one TCP socket. It and the other scripts of
-- sift1m/ measure recall, latency and throughput in the same way, each over the client library of its
-- database. vectordbbench/smoke_test.py runs the VectorDBBench client against a server and asserts
-- what comes back. netkv/charts/mkcharts.py and
-- vectordbbench/charts/make_charts.py draw results as SVG files.
--
-- Files:
--   Base         library names, Boolean tests, list lemmas and ℤ over the native ℕ (Int, Arith)
--   Python       exceptions, struct.pack (Bytes), %d (Decimal), JSON values and int() (Json),
--                json.dumps (Dumps), int() of written digits (ReadDecimal)
--   Numpy        the interface of what numpy does, and its documented behaviour (IsLawful)
--   Config       vectordbbench/rostam/config.py: RostamConfig.to_dict, RostamHNSWConfig.index_param
--   Wire         Bulk is _binary_body and Query is _query_body of vectordbbench/rostam/rostam.py;
--                Layout is the two framings as the comments in that file describe them;
--                BulkRoundTrip and QueryRoundTrip relate the two, by the lemmas of Repeat
--   Client       the class Rostam of vectordbbench/rostam/rostam.py. Http and State are requests,
--                replies, the attributes and the monad of its methods; Session is _new_session, init,
--                _sess and _url; Create is __init__ and _create; Insert is insert_embeddings,
--                _json_body and optimize; Filter is prepare_filter; Search is search_embedding.
--                The others are proofs: Connect and Fresh for what __init__ sends, Invariant and
--                Calls for the state between calls, Sent and Fallback for the order of the wires,
--                Acknowledged, Slices, RoundPoints, LoopPoints and Load for what a load delivers,
--                Meaning for the two bodies of a query
--   Cli          vectordbbench/rostam/cli.py: the options of the command and the settings they make
--   PyClient     sift1m/rostam_py_client.py: Frame is encode_search, Socket is _recvn and search;
--                Recall is the loop of latency without its clock, Latency is latency, _qps_worker and
--                saturated_qps; Request, Receive and Response are proofs
--   Sift         what the scripts of sift1m/ share: Latency and Quantile are the loop and the figures
--                of latency, Worker is _qps_worker, Pool is saturated_qps, Sweep is the loop over the
--                search widths, Answers is a service whose answers are known. Grpc is
--                rostam_grpc_client.py; Qdrant.Build and Qdrant.LatencyQps are qdrant_latency_qps.py
--                and Qdrant.Bench is qdrant_bench.py; Redis is redis_bench.py, with its Load, the Reply
--                of a search, the wait for the Index and main in Bench; Hnswlib is hnswlib_bench.py
--   Smoke        vectordbbench/smoke_test.py: main; Passes and Answers are what a passing test shows
--   Charts       netkv/charts/mkcharts.py: Labels is decollide, Escape is esc; Spaced, Bounds,
--                Order, Apart and Still are proofs. Files is emit, and the loops of vectordbbench/charts/make_charts.py. Svg is
--                head and yaxis, Line is line_chart, Bar is bar_chart, Script the tables and the calls of
--                emit. Xml reads a document; Inside, Parts, LineXml, BarXml, ScriptXml, Colors and
--                Rooms are proofs. Vector is the rest of vectordbbench/charts/make_charts.py: Data,
--                the helpers in Shapes, chart_pareto in Pareto, chart_matched in Matched,
--                chart_loadcpu in LoadCpu, and CHARTS in Script; Xml, ParetoXml, MatchedXml and
--                LoadCpuXml are proofs
--   Tests        the theorems at concrete inputs
--
-- State and operations. A method is a function from the object and the exchanges so far to a result
-- or an exception and the new state; what was written before an exception stays written. The server
-- and the network are one function from all earlier exchanges and the request to the reply, or to a
-- failure of the transport, so a theorem for every server covers old and new servers and any that
-- change their mind. Floats are their IEEE 754 bit patterns; a Python integer is an ℤ of any size; a
-- text is its code points. The TCP socket is the list of pieces that the peer will deliver. The other
-- databases are interfaces over a state of any type (a record of their operations), so they may answer
-- anything and fail at any call. Times are ticks, and a clock is a function from the number of earlier
-- readings to the tick. Heights in a chart are integers of a unit that divides them
-- all, and positions are fractions; how Python writes a float is a parameter (Format).
-- In make_charts.py, which takes logarithms and roots, floats are an interface (Floats), of which only
-- the form of the written numbers is assumed.
--
-- Fuel. The digits of n are written in n + 1 rounds, each but the last dividing by ten. `_recvn`
-- has n rounds for n bytes, since a round brings a byte or ends it. A range is unrolled by the number
-- of its elements. A worker has one round for each look at the clock, so it needs one more than the
-- looks before its time is over. A wait for an index has one round for each answer, so it needs one
-- more than the answers before the first that is good. Without these it ends as `stuck`.
--
-- Not modelled: numpy (a parameter with laws), the repr of a float (a parameter of json.dumps), the
-- bodies of requests and responses below JSON, closing of sessions and logging, which the object does
-- not show; int() of texts reads ASCII only. Scripts take the arrays of their files as arguments, since
-- np.fromfile is numpy's. What they print, the memory measured by hnswlib_bench.py,
-- the generated gRPC stubs, and the Go and shell programs are outside the
-- development. int(n * 0.99) is n * 99 / 100, which the float product gives for every n below 2 ^ 45.
pub mod Base
pub mod Python
pub mod Numpy
pub mod Wire
pub mod Config
pub mod Client
pub mod Cli
pub mod PyClient
pub mod Sift
pub mod Smoke
pub mod Charts
mod Tests
