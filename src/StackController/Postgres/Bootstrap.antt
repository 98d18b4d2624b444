-- ===== src/StackController/Postgres/Bootstrap.antt =====
-- The bootstrap of a postgres cluster is decided once, stack_controller.go.
use paas_controlplane.Base.{
  String, List, false, Option, ◌==◌, ◌≡◌, ok, ap, sym, ◌∙◌, ok-injective, Bool-cases, inl, inr,
}
use paas_controlplane.Api.{Stack, BackingSpec}
use paas_controlplane.Kube.{Kube, CnpgCluster, ExternalCluster, InitDb, stack, set_owner}
use paas_controlplane.Kube.Owners.{and_then-ok}
use paas_controlplane.StackController.Setup.{StackReconciler}
use paas_controlplane.StackController.Buckets.{Bucket}
use paas_controlplane.StackController.Postgres.{
  Seed, bootstrap, archive, tolerate, sized, written_cluster, mutate_cluster,
}

-- How a cluster comes to be: by recovery from a source, or as a new database.
pub record Origin : Type 0 where
  pub recovery_source : Option String
  pub external_clusters : List ExternalCluster
  pub init_db : Option InitDb

abbrev pub origin : CnpgCluster → Origin
origin cl = record {
  recovery_source = cl.recovery_source;
  external_clusters = cl.external_clusters;
  init_db = cl.init_db;
}

origin-archive :
    (r : StackReconciler) (name : String) (own : Bucket) (cl : CnpgCluster)
    → origin (archive r name own cl) ≡ origin cl
unfolding archive
origin-archive r name own cl = elim (Bool-cases own.bound) [ inl e ↦ rw e | inr e ↦ rw e ]

origin-tolerate : (r : StackReconciler) (cl : CnpgCluster) → origin (tolerate r cl) ≡ origin cl
unfolding tolerate
origin-tolerate r cl = elim (Bool-cases r.tolerate_control_plane) [ inl e ↦ rw e | inr e ↦ rw e ]

written_origin :
    (r : StackReconciler) (b : BackingSpec) (name : String) (seed : Option Seed) (own : Bucket)
    (cl : CnpgCluster)
    → origin (written_cluster r b name seed own cl) ≡ origin (bootstrap r seed (sized b cl))
unfolding written_cluster
written_origin r b name seed own cl =
    origin-tolerate r (archive r name own (bootstrap r seed (sized b cl)))
    ∙ origin-archive r name own (bootstrap r seed (sized b cl))

bootstrap_kept :
    (r : StackReconciler) (seed : Option Seed) (cl : CnpgCluster)
    → (cl.meta.uid == "") ≡ false
    → bootstrap r seed cl ≡ cl
unfolding bootstrap
bootstrap_kept r seed cl e = rw e

-- The mutate function of a postgres cluster leaves the bootstrap of a cluster that exists, which has a UID,
-- as it is, whatever the Stack's annotations say by now.
pub bootstrap_once :
    (K : Kube) (r : StackReconciler) (st : Stack) (b : BackingSpec) (name : String)
    (seed : Option Seed) (own : Bucket) (cl cl' : CnpgCluster)
    → (cl.meta.uid == "") ≡ false
    → mutate_cluster K r st b name seed own cl ≡ ok cl'
    → origin cl' ≡ origin cl
unfolding mutate_cluster
bootstrap_once K r st b name seed own cl cl' e m =
    let (meta, set, same) =
      and_then-ok (set_owner K stack st.meta cl.meta)
        (λ x. ok (record (written_cluster r b name seed own cl) { meta = x })) cl' m in
    ap origin (sym (ok-injective _ cl' same))
    ∙ written_origin r b name seed own cl
    ∙ ap origin (bootstrap_kept r seed (sized b cl) e)
