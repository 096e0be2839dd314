-- ===== src/Tests.antt =====
-- Runs of the modelled code on concrete inputs, and the theorems at such inputs.
mod BreakerRuns
mod PoolRuns
mod ApiRuns
mod PipelineRuns
mod DbtRuns
mod DebeziumRuns
mod DriftRuns
mod FeatureDagRuns
mod QualityRuns
mod SparkRuns
mod SchemaRuns
mod SloRuns
mod DagRuns
mod DashboardRuns
mod HookRuns
mod LifespanRuns
mod SeedRuns
mod BastionRuns
mod AlertRuns
