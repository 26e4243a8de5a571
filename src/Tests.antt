-- ===== src/Tests.antt =====
-- Runs of the operations on small inputs.
mod ClientRuns
mod FirewallRuns
mod RestoreRuns
mod EndpointRuns
mod HostnameRuns
mod ReferenceRuns
mod ClusterRuns
mod FenceRuns
mod OwnedRouteRuns
mod FinalizationRuns
