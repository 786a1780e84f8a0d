-- ===== src/Tests.antt =====
-- Theorems applied at concrete inputs, and evaluations of the code.
mod TextRuns
mod TrackerRuns
mod ClientRuns
mod NetworkRuns
mod SocketRuns
mod ClientProgramRuns
mod TrackerProgramRuns
mod ExchangeRuns
mod SearchRuns
mod PageRuns
mod ThemeRuns
