-- ===== src/AppController/Settled.antt =====
-- What a reconcile of app_controller.go that returns no error has done.
use paas_controlplane.Base.{Option, none, some, Result, ok, err, ◌≡◌}
use paas_controlplane.Api.{App, Release, NamespacedName}
use paas_controlplane.Kube.{Kube, Cluster, ReconcileResult, Err, done, ignore_not_found}
use paas_controlplane.Kube.Writes.{Made}
use paas_controlplane.Kube.Strict.{Strict, IsSettled, Strict-returns, strict_rules}
use paas_controlplane.AppController.{
  AppReconciler, set_phase, deploy, reconcile_app, roll_out, found, reconcile,
}

module _ (K : Kube) (r : AppReconciler) where
  roll_out-Strict :
      (a : App) (newest : Option Release) → Strict K (IsSettled (λ _. ⊥)) (roll_out K r a newest)
  unfolding roll_out set_phase deploy
  roll_out-Strict a none = search strict_rules
  roll_out-Strict a (some rel) = search strict_rules

  found-Strict : (got : Result (Err K.Error) App) → Strict K (IsSettled (λ _. ⊥)) (found K r got)
  unfolding reconcile_app
  found-Strict (ok a) = search (strict_rules, roll_out-Strict)
  found-Strict (err e) = Strict-returns done (ignore_not_found K e)

  reconcile-Strict : (req : NamespacedName) → Strict K (IsSettled (λ _. ⊥)) (reconcile K r req)
  unfolding reconcile
  reconcile-Strict req = search (strict_rules, found-Strict)

  -- Where a reconcile of an App returns no error, each writing call that it made has succeeded: no
  -- error of a write is lost.
  pub app-IsSettled :
      (req : NamespacedName) (s : Cluster K) (res : ReconcileResult)
      → (reconcile K r req s).0 ≡ ok res
      → Made (IsSettled (λ _. ⊥)) s.calls (reconcile K r req s).1.calls
  app-IsSettled req s res e = (reconcile-Strict req).at s res e
