-- ===== src/Charts/Vector.antt =====
-- vectordbbench/charts/make_charts.py.
pub mod Data
pub mod Shapes
pub mod Pareto
pub mod Matched
pub mod LoadCpu
pub mod Xml
pub mod ParetoXml
pub mod MatchedXml
pub mod LoadCpuXml
pub mod Script
