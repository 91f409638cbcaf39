-- ===== src/Examples.antt =====
-- Tests of the models on small inputs, and each theorem that has hypotheses at an input that meets
-- them.
mod EngineData
mod EngineRuns
pub mod ReplayRuns
mod LoopRuns
mod PublicationRuns
mod AuthenticationRuns
mod WorkspaceData
mod WorkspaceRuns
mod IntegrationRuns
mod SchedulerRuns
mod ProcessRuns
