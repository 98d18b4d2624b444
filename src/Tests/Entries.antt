-- ===== src/Tests/Entries.antt =====
-- Starts of the control plane, with an environment that sets one variable.
use paas_controlplane.Base.{String, true, false, ◌==◌, ◌≡◌, refl, if◌then◌else◌, Result, ok, err}
use paas_controlplane.ServiceDefs.{ServiceCatalog}
use paas_controlplane.Entry.{Outcomes, Running, configure, main}
use paas_controlplane.Entry.Settings.{IsConsistent, succeeds, main_total, main_lem}
use paas_controlplane.Tests.Catalogs.{builtins}

abbrev getenv : String → String
getenv name = if name == "PAAS_OVERCOMMIT_TIER" then "prod" else ""

abbrev fine : Outcomes
fine = record {
  new_manager = true;
  app_controller = true;
  stack_controller = true;
  environment_controller = true;
  api_server = true;
  start = true;
}

abbrev started : Running
started = configure getenv (λ m. m) builtins

main_lem_example :
    (succeeds fine ≡ true)
    × (◌≡◌ {A = Result String ServiceCatalog} (ok builtins) (ok started.builtins))
    × IsConsistent (λ m. m) started
main_lem_example =
    main_lem getenv (λ m. m) (ok builtins) fine started
      (main_total getenv (λ m. m) builtins fine refl)

no_stack_controller :
    main getenv (λ m. m) (ok builtins) (record fine { stack_controller = false; start = false })
    ≡ err "unable to set up Stack controller"
unfolding main
no_stack_controller = refl
