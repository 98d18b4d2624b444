-- ===== src/Api.antt =====
-- The paas.sh/v1alpha1 resources, api/v1alpha1/*_types.go: apps and releases in `Apps`, stacks in
-- `Stacks`, environments in `Environments`. `metav1.ObjectMeta` is `Meta`, with the fields that the
-- program reads or writes. A Go pointer is an `Option`; an int32 or int64 is a `ℤ`.
mod ObjectMeta
mod Apps
mod Stacks
mod Environments
pub use ObjectMeta.*
pub use Apps.*
pub use Stacks.*
pub use Environments.*
