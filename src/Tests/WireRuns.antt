-- ===== src/Tests/WireRuns.antt =====
-- The wire at concrete inputs.
use rostam_bench.Base.{◌≡◌, refl, some, true, false, [], ◌∷◌, arith, map}
use rostam_bench.Base.Int.{pos}
use rostam_bench.Python.Errors.{Bytes, ok}
use rostam_bench.Python.Dumps.{codes}
use rostam_bench.Numpy.{Matrix}
use rostam_bench.Wire.Bulk.{binary_body}
use rostam_bench.Wire.Query.{query_body}
use rostam_bench.Wire.Layout.{parse_bulk, parse_query}
use rostam_bench.Wire.BulkRoundTrip.{IsChunk, bulk_of, parse_bulk-binary_body}
use rostam_bench.Wire.QueryRoundTrip.{as_filter, parse_query-query_body}
use rostam_bench.Tests.Samples.{low_numpy, low_numpy-IsLawful}

abbrev two_rows : Matrix
two_rows = record { cols = 2; rows = (0x3f80_0000 ∷ 0 ∷ []) ∷ (0x4000_0000 ∷ 5 ∷ []) ∷ [] }

two_rows-IsChunk : IsChunk (7 ∷ 300 ∷ []) two_rows
two_rows-IsChunk = omega arith

parse_bulk-binary_body_example :
    (b : Bytes) × (binary_body low_numpy (map pos (7 ∷ 300 ∷ [])) two_rows true true ≡ ok b)
    × (parse_bulk b ≡ some (bulk_of true true (7 ∷ 300 ∷ []) two_rows))
parse_bulk-binary_body_example =
    parse_bulk-binary_body low_numpy-IsLawful (7 ∷ 300 ∷ []) two_rows true true two_rows-IsChunk

parse_query-query_body_example :
    (b : Bytes) × (query_body low_numpy (0x3f80_0000 ∷ 9 ∷ []) (pos 10) (codes "{}") ≡ ok b)
    × (parse_query b
        ≡ some (record { k = 10; vector = 0x3f80_0000 ∷ 9 ∷ []; filter = as_filter (codes "{}") }))
parse_query-query_body_example =
    parse_query-query_body low_numpy-IsLawful (0x3f80_0000 ∷ 9 ∷ []) 10 (codes "{}") (omega arith)
      (omega arith) (omega arith)

one_point :
    binary_body low_numpy
      (pos 7 ∷ [])
      (record { cols = 1; rows = (0x3f80_0000 ∷ []) ∷ [] })
      false
      true
    ≡ ok (
        82
        ∷ 86
        ∷ 66
        ∷ 49
        ∷ 0
        ∷ 0
        ∷ 0
        ∷ 1
        ∷ 0
        ∷ 0
        ∷ 0
        ∷ 1
        ∷ 0
        ∷ 0
        ∷ 0
        ∷ 1
        ∷ 0
        ∷ 0
        ∷ 0
        ∷ 0
        ∷ 0
        ∷ 0
        ∷ 0
        ∷ 7
        ∷ 0x3f
        ∷ 0x80
        ∷ 0
        ∷ 0
        ∷ 0
        ∷ 0
        ∷ 0
        ∷ 29
        ∷ codes "{\"id\":{\"kind\":\"int\",\"int\":7}}")
unfolding binary_body rostam_bench.Python.Bytes.pack_u32 rostam_bench.Python.Bytes.be64
    rostam_bench.Python.Errors.map_result rostam_bench.Python.Decimal.decimal_int
    rostam_bench.Python.Decimal.decimal
one_point = refl
