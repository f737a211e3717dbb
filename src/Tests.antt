-- ===== src/Tests.antt =====
-- Concrete runs, and the theorems applied at concrete inputs.
mod Samples
mod WireRuns
mod ClientRuns
mod PyClientRuns
mod FreshRuns
mod CliRuns
mod MeasureRuns
mod ChartRuns
mod SiftRuns
mod LatencyRuns
mod SmokeRuns
mod PageRuns
mod SvgRuns
