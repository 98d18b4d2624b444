-- ===== src/EnvironmentController/Namespaces.antt =====
-- Which namespace an Environment gets, environment_controller.go, and where the Stack of a preview looks
-- for the data of its parent, snapshots.go and stack_controller.go.
use text.Mathlib.TextLemmas.{append_cancel_left}
use paas_controlplane.Base.{
  true, not, ◌≡◌, ap, is_free, joined_lem, not-true, and-true, ◌⧺◌, ◌==◌, ◌↔◌, some,
  value_at-insert,
}
use paas_controlplane.Api.{Environment, Stack, StackSpec, BackingSpec, named}
use paas_controlplane.Kube.{fresh_stack}
use paas_controlplane.Snapshots.{pvc_name_for}
use paas_controlplane.Snapshots.Clones.{parent_namespace, parent_stack}
use paas_controlplane.StackController.Buckets.{backing_name_for}
use paas_controlplane.StackController.Postgres.{clone_source}
use paas_controlplane.EnvironmentController.Mutate.{proj-ne-nil}
use paas_controlplane.EnvironmentController.{namespace_for, clones, write_stack, clone_coordinates}

-- Of two Environments whose projects hold no dash: they have the same namespace exactly if they have
-- the same project and the same name.
pub namespace_for_lem :
    (env sibling : Environment)
    → is_free "-" env.spec.project ≡ true
    → is_free "-" sibling.spec.project ≡ true
    → (namespace_for env ≡ namespace_for sibling)
      ↔ ((env.spec.project ≡ sibling.spec.project) × (env.meta.name ≡ sibling.meta.name))
unfolding namespace_for
namespace_for_lem env sibling free free' = (
  λ e.
      (joined_lem env.spec.project sibling.spec.project env.meta.name sibling.meta.name free
          free').0
        (append_cancel_left "proj-" _ _ e),
  λ (p, n). rw (p, n),
)

-- The Stack that an Environment writes into its namespace.
abbrev pub stack_of : Environment → StackSpec → Stack
stack_of env spec = write_stack env spec (fresh_stack (named (namespace_for env) env.meta.name))

module _ (env : Environment) (spec : StackSpec) (st : Stack) (c : clones env ≡ true) where
  write_stack-namespace :
      parent_namespace (write_stack env spec st)
      ≡ "proj-" ⧺ env.spec.project ⧺ "-" ⧺ env.spec.clone_from
  unfolding write_stack clone_coordinates
  write_stack-namespace = rw c (simp value_at-insert)

  write_stack-stack : parent_stack (write_stack env spec st) ≡ env.spec.clone_from
  unfolding write_stack clone_coordinates
  write_stack-stack = rw c (simp value_at-insert)

  write_stack-source :
      (b : BackingSpec)
      → b.backup ≡ true
      → clone_source (write_stack env spec st) b
        ≡ some (record {
          parent_ns = "proj-" ⧺ env.spec.project ⧺ "-" ⧺ env.spec.clone_from;
          parent_cluster = env.spec.clone_from ⧺ "-" ⧺ b.name;
        })
  unfolding clone_source
  write_stack-source b backed =
      let preview : not (env.spec.clone_from == "") ≡ true =
        (and-true (env.spec.env_type == "preview") _ c).1 in
      simp (
        backed,
        write_stack-namespace,
        write_stack-stack,
        proj-ne-nil (env.spec.project ⧺ "-" ⧺ env.spec.clone_from),
        not-true _ preview,
      )

-- Where a preview names a sibling of its project as its parent, its Stack points at the parent's
-- Stack, whatever it held before: the coordinates are the parent's namespace and the name of the Stack
-- that the parent writes there; the claim that a clone of a volume snapshots is that Stack's claim, and
-- the cluster that a postgres with backups is seeded from is that Stack's.
pub parent_lem :
    (env parent : Environment) (spec parent_spec : StackSpec) (st : Stack) (b : BackingSpec)
    → clones env ≡ true
    → parent.spec.project ≡ env.spec.project
    → parent.meta.name ≡ env.spec.clone_from
    → let written = write_stack env spec st in
      let origin = stack_of parent parent_spec in
      (parent_namespace written ≡ origin.meta.namespace)
      × (pvc_name_for (parent_stack written) b.name ≡ pvc_name_for origin.meta.name b.name)
      × (b.backup ≡ true
          → clone_source written b
            ≡ some (record {
              parent_ns = origin.meta.namespace;
              parent_cluster = backing_name_for origin b;
            }))
unfolding namespace_for write_stack
parent_lem env parent spec parent_spec st b c p n = (
  rw (p, n) (write_stack-namespace env spec st c),
  rw n (ap (λ name. pvc_name_for name b.name) (write_stack-stack env spec st c)),
  λ backed. rw (p, n) (write_stack-source env spec st c b backed),
)
