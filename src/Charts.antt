-- ===== src/Charts.antt =====
-- The scripts that draw the charts: netkv/charts/mkcharts.py and vectordbbench/charts/make_charts.py.
pub mod Labels
pub mod Spaced
pub mod Bounds
pub mod Still
pub mod Order
pub mod Apart
pub mod Escape
pub mod Files
pub mod Xml
pub mod Svg
pub mod Inside
pub mod Line
pub mod Parts
pub mod LineXml
pub mod Bar
pub mod BarXml
pub mod Script
pub mod ScriptXml
pub mod Colors
pub mod Vector
pub mod Rooms
