-- ===== src/Entry/Settings.antt =====
-- What main has set where it runs: main.go.
use paas_controlplane.Base.{
  String, Bool, true, false, ◌&&◌, Dict, ◌==◌, ◌≤◌, ◌≡◌, refl, sym, ap, ◌∙◌, Result, ok, err, arith,
  Bool-cases, inl, inr, subst,
}
use paas_controlplane.Overcommit.Bounds.{resolve_tier_lem}
use paas_controlplane.ServiceDefs.{Pointer, ServiceCatalog}
use paas_controlplane.CatalogApi.{entries}
use paas_controlplane.Entry.{Outcomes, Running, setting, configure, main}

-- The settings of a control plane that agree with each other, and none of which is empty where the code counts on it.
pub record IsConsistent (iterate : Dict Pointer → Dict Pointer) (r : Running) : Type 0 where
  pub same_tier : r.app.tier ≡ r.stack.tier
  pub same_tolerance : r.app.tolerate_control_plane ≡ r.stack.tolerate_control_plane
  pub same_scheduler : r.app.scheduler_name ≡ r.stack.scheduler_name
  pub cpu_ratio : 1 ≤ r.stack.tier.cpu
  pub mem_ratio : 1 ≤ r.stack.tier.mem
  pub has_namespace : (r.stack.system_namespace == "") ≡ false
  pub has_storage_class : (r.stack.object_storage_class == "") ≡ false
  pub has_endpoint : (r.stack.object_endpoint == "") ≡ false
  pub has_address : (r.api_addr == "") ≡ false
  pub shows_builtins : r.catalog ≡ entries iterate r.builtins

setting_given :
    (getenv : String → String) (name default : String)
    → (default == "") ≡ false
    → (setting getenv name default == "") ≡ false
setting_given getenv name default h = elim (Bool-cases (getenv name == "")) [
  | inl e ↦ rw e h
  | inr e ↦ rw e e
]

configure-IsConsistent :
    (getenv : String → String) (iterate : Dict Pointer → Dict Pointer) (builtins : ServiceCatalog)
    → IsConsistent iterate (configure getenv iterate builtins)
unfolding configure
configure-IsConsistent getenv iterate builtins = record {
  same_tier = refl;
  same_tolerance = refl;
  same_scheduler = refl;
  cpu_ratio = (resolve_tier_lem (getenv "PAAS_OVERCOMMIT_TIER")).0;
  mem_ratio = (resolve_tier_lem (getenv "PAAS_OVERCOMMIT_TIER")).1;
  has_namespace = setting_given getenv "PAAS_SYSTEM_NAMESPACE" "paas-system" refl;
  has_storage_class = setting_given getenv "PAAS_OBJECT_STORAGECLASS" "ceph-bucket" refl;
  has_endpoint =
      setting_given getenv "PAAS_OBJECT_ENDPOINT" "http://rook-ceph-rgw-paas-s3.rook-ceph.svc" refl;
  has_address = setting_given getenv "PAAS_API_ADDR" ":8082" refl;
  shows_builtins = refl;
}

-- Every call of main succeeds.
abbrev pub succeeds : Outcomes → Bool
succeeds o =
    o.new_manager && o.app_controller && o.stack_controller && o.environment_controller
    && o.api_server && o.start

configure-builtins :
    (getenv : String → String) (iterate : Dict Pointer → Dict Pointer) (c : ServiceCatalog)
    → (configure getenv iterate c).builtins ≡ c
unfolding configure
configure-builtins getenv iterate c = refl

main_inversion :
    (getenv : String → String) (iterate : Dict Pointer → Dict Pointer)
    (catalog : Result String ServiceCatalog) (o : Outcomes) (r : Running)
    → main getenv iterate catalog o ≡ ok r
    → (c : ServiceCatalog) × (succeeds o ≡ true)
      × (catalog ≡ ok c)
      × (configure getenv iterate c ≡ r)
unfolding main
main_inversion getenv iterate (ok c) o r h = (c, ground arith, refl, ground arith)
main_inversion getenv iterate (err e) o r h = absurd (ground arith)

pub main_total :
    (getenv : String → String) (iterate : Dict Pointer → Dict Pointer) (c : ServiceCatalog)
    (o : Outcomes)
    → succeeds o ≡ true
    → main getenv iterate (ok c) o ≡ ok (configure getenv iterate c)
unfolding main
main_total getenv iterate c o h = ground arith

-- Where main runs, every call has succeeded and the builtin catalog was loaded; the two controllers share
-- the overcommit tier, whose ratios are at least 1, the scheduler and the toleration; the system namespace, the storage
-- class, the endpoint and the address are not empty, whatever the environment holds; and the catalog
-- that the API shows is the one that the Stack controller has.
pub main_lem :
    (getenv : String → String) (iterate : Dict Pointer → Dict Pointer)
    (catalog : Result String ServiceCatalog) (o : Outcomes) (r : Running)
    → main getenv iterate catalog o ≡ ok r
    → (succeeds o ≡ true) × (catalog ≡ ok r.builtins) × IsConsistent iterate r
main_lem getenv iterate catalog o r h =
    let (c, each, read, same) = main_inversion getenv iterate catalog o r h in
    let whole : r.builtins ≡ c =
      ap (λ (x : Running). x.builtins) (sym same) ∙ configure-builtins getenv iterate c in
    (
      each,
      read ∙ ap ok (sym whole),
      subst (IsConsistent iterate) same (configure-IsConsistent getenv iterate c),
    )
