-- ===== src/Tests.antt =====
-- Runs of the models at concrete inputs.
mod Samples
mod Objects
mod Hosts
mod Workers
mod Cluster
mod Exposing
mod Tunnels
mod Systems
mod Convergence
mod Watching
mod Daemons
mod Limits
mod Commands
