-- ===== src/Tests/ChartRuns.antt =====
-- `decollide` at concrete inputs, with the gap and the bounds of the script.
use rostam_bench.Base.{inl, All, length, ◌+◌, ◌*◌, ◌≡◌, refl, List, [], ◌∷◌, arith}
use rostam_bench.Base.Int.{ℤ, pos}
use rostam_bench.Base.Arith.{◌+ℤ◌, ◌-ℤ◌, ◌≤ℤ◌}
use rostam_bench.PyClient.Socket.{done}
use rostam_bench.Sift.Quantile.{item}
use rostam_bench.Charts.Labels.{
  insert, order, pushed, down_from, down, lifted, up, shift, settled, placed, value_at, decollide,
}
use rostam_bench.Charts.Apart.{decollide-IsApart, decollide-IsInside}
use rostam_bench.Charts.Svg.{ml, pw}
use rostam_bench.Charts.Bar.{unit, half_bar}
use rostam_bench.Charts.Rooms.{room, IsInRoom, IsInPlot, half_bar-IsInRoom}
use rostam_bench.Charts.Still.{decollide-still}

abbrev ends : List ℤ
ends = pos 100 ∷ pos 300 ∷ pos 105 ∷ []

moved_apart : decollide (pos 15) (pos 46) (pos 340) ends ≡ done (pos 100 ∷ pos 300 ∷ pos 115 ∷ [])
unfolding decollide placed order insert up down down_from pushed lifted settled shift value_at ◌+ℤ◌
    ◌-ℤ◌
moved_apart = refl

-- Four lines, of which one ends at the top of the chart and three at its bottom: the labels of the
-- last three push the first one above the upper bound, though there is room between them.
pushed_out :
    decollide (pos 15) (pos 46) (pos 340) (pos 52 ∷ pos 334 ∷ pos 334 ∷ pos 334 ∷ [])
    ≡ done (pos 28 ∷ pos 310 ∷ pos 325 ∷ pos 340 ∷ [])
unfolding decollide placed order insert up down down_from pushed lifted settled shift value_at ◌+ℤ◌
    ◌-ℤ◌
pushed_out = refl

-- The first and the last of three lines, which end 5 apart.
decollide-IsApart_example :
    (zs : List ℤ) × (c : ℤ) × (d : ℤ) × (decollide (pos 15) (pos 46) (pos 340) ends ≡ done zs)
    × (length zs ≡ length ends)
    × (item 0 zs ≡ done c)
    × (item 2 zs ≡ done d)
    × (c +ℤ pos 15 ≤ℤ d)
unfolding item
decollide-IsApart_example =
    decollide-IsApart (pos 15) (pos 46) (pos 340) (pos 100) (pos 300 ∷ pos 105 ∷ []) 0 2 (pos 100)
      (pos 105) (omega arith) refl refl (inl (omega arith))

decollide-IsInside_example :
    (zs : List ℤ) × (decollide (pos 15) (pos 46) (pos 340) ends ≡ done zs)
    × (length zs ≡ length ends)
    × All (λ z. (pos 46 ≤ℤ z) × (z ≤ℤ pos 340)) zs
unfolding order insert down down_from pushed ◌+ℤ◌ ◌-ℤ◌
decollide-IsInside_example =
    decollide-IsInside (pos 15) (pos 46) (pos 340) (pos 100) (pos 300 ∷ pos 105 ∷ []) (omega arith)

decollide-still_example :
    decollide (pos 15) (pos 46) (pos 340) (pos 300 ∷ pos 100 ∷ []) ≡ done (pos 300 ∷ pos 100 ∷ [])
unfolding order insert ◌+ℤ◌
decollide-still_example =
    decollide-still (pos 15) (pos 46) (pos 340) (pos 300) (pos 100 ∷ []) (omega arith) (omega arith)

-- The last bar of a chart that has four groups of four bars.
half_bar-IsInRoom_example :
    (half : ℤ) × (half_bar 4 4 ≡ done half)
    × (room 4 4 0 ≡ ml * unit 4 4)
    × (room 4 4 4 ≡ (ml + pw) * unit 4 4)
    × IsInRoom 4 4 half 3 3
    × IsInPlot 8000 7324
half_bar-IsInRoom_example =
    half_bar-IsInRoom 4 4 3 3 8000 7324 (omega arith) (omega arith) (omega arith) (omega arith)
      (omega arith)
