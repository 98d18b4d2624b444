-- ===== src/StackController.antt =====
-- internal/controller/stack_controller.go: a Stack becomes its backing services, a release Job for
-- each service that has a hook, and a Deployment for each process. The definitions are in the
-- children: `Setup` (the reconciler's fields and the helpers), `Bindings`, `Connections`, `Releases`,
-- `Processes`, `Services` (the loop of Reconcile) and `Status`; the proofs stand below those.
pub mod Setup
pub mod Bindings
pub mod Buckets
pub mod Postgres
pub mod Volumes
pub mod Fallback
pub mod Templated
pub mod Backings
pub mod Connections
pub mod Releases
pub mod Processes
pub mod Services
pub mod Status
