-- ===== src/Tests.antt =====
-- Runs of the modelled code on small inputs, with the properties applied to them.
mod ArenaRuns
mod ObjectRuns
mod SessionRuns
mod MessageRuns
mod SizeRuns
mod SegmentRuns
mod DaemonRuns
mod LedgerRuns
