-- ===== src/Kube.antt =====
-- The Kubernetes API as the program uses it: the objects that are not its own resources
-- (`Objects`, and `Workloads` for pods), the client library as an interface (`Client`),
-- computations that call it (`Exec`, `Calls`), what such a computation writes (`Writes`) and
-- which errors it may lose (`Strict`), and what it can return (`Gives`).
mod Workloads
mod Operators
mod Objects
mod Client
mod Exec
mod Calls
pub mod Owners
pub mod Writes
pub mod Strict
pub mod Gives
pub use Workloads.*
pub use Operators.*
pub use Objects.*
pub use Client.*
unfoldable pub use Exec.*
unfoldable pub use Calls.*
