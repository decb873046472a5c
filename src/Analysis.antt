-- ===== src/Analysis.antt =====
-- src/analysis: what the program finds out from the processed events.
pub mod Exports
pub mod Table
pub mod Base
pub mod Returns
pub mod SpinDuration
pub mod TakeToCallbackLatency
pub mod CallbackDuration
pub mod MessageLatency
pub mod PublicationInCallback
pub mod DependencyGraph
pub mod EventAnalysis
pub mod CallbackDependency
pub mod Utilization
pub mod Tests
