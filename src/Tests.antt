-- ===== src/Tests.antt =====
-- The code and its theorems run on small tables.
mod DeadlockRuns
mod MutexRuns
mod ServerRuns
mod LogRuns
mod CheckRuns
mod SystemRuns
mod ProgramRuns
mod TrialRuns
mod Scenario
mod ScenarioRuns
mod ForkRuns
