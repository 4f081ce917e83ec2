-- ===== src/Proxier.antt =====
-- internal/proxier: the port-forwards of services.
pub mod Types
pub mod Endpoints
pub mod Worker
pub mod Setup
pub mod Create
pub mod Reconcile
pub mod Events
pub mod System
pub mod Lifecycle
