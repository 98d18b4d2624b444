-- ===== src/AppController/Reconcile.antt =====
-- What a reconcile of app_controller.go writes.
use paas_controlplane.Base.{String, ◌≡◌, refl, subst, Bool, Option, none, some, Result, ok, err}
use paas_controlplane.Api.{App, Release, NamespacedName, key_of}
use paas_controlplane.Kube.{
  Kube, Answers, Call, read_call, create_or_update, update_status, object, deployment, service, app,
  done, Err, ignore_not_found, api_error,
}
use paas_controlplane.Kube.Writes.{Writes, Writes-returns, writes_rules}
use paas_controlplane.Kube.Owners.{api_error-ok}
use paas_controlplane.AppController.{
  AppReconciler, set_phase, deploy, reconcile_app, normalize_image, roll_out, found, reconcile,
}

-- The calls that a reconcile of the App with this key may make: its Deployment, its Service, and the
-- App's status.
pub data IsAppWrite (key : NamespacedName) : Call → Type 0 where
  deployment_write :
      (b : Bool)
      → IsAppWrite key
          (record { verb = create_or_update; target = object deployment key; succeeded = b })
  service_write :
      (b : Bool)
      → IsAppWrite key
          (record { verb = create_or_update; target = object service key; succeeded = b })
  status_write :
      (b : Bool)
      → IsAppWrite key (record { verb = update_status; target = object app key; succeeded = b })

ruleset app_writes = (writes_rules, deployment_write, service_write, status_write)

module _ (K : Kube) where
  set_phase-Writes :
      (a : App) (phase : String) → Writes K (IsAppWrite (key_of a.meta)) (set_phase K a phase)
  unfolding set_phase
  set_phase-Writes a phase = search app_writes

  deploy-Writes :
      (r : AppReconciler) (a : App) (image : String)
      → Writes K (IsAppWrite (key_of a.meta)) (deploy K r a image)
  unfolding deploy
  deploy-Writes r a image = search app_writes

  roll_out-Writes :
      (r : AppReconciler) (a : App) (newest : Option Release)
      → Writes K (IsAppWrite (key_of a.meta)) (roll_out K r a newest)
  unfolding roll_out
  roll_out-Writes r a none = set_phase-Writes a "NoRelease"
  roll_out-Writes r a (some rel) = deploy-Writes r a (normalize_image rel.spec.image)

  reconcile_app-Writes :
      (r : AppReconciler) (a : App) → Writes K (IsAppWrite (key_of a.meta)) (reconcile_app K r a)
  unfolding reconcile_app
  reconcile_app-Writes r a = search (app_writes, roll_out-Writes)

  found-Writes :
      (r : AppReconciler) (req : NamespacedName) (got : Result (Err K.Error) App)
      → ((a : App) → got ≡ ok a → key_of a.meta ≡ req)
      → Writes K (IsAppWrite req) (found K r got)
  found-Writes r req (ok a) same =
      subst (λ key. Writes K (IsAppWrite key) (reconcile_app K r a)) (same a refl)
        (reconcile_app-Writes r a)
  found-Writes r req (err e) same = Writes-returns done (ignore_not_found K e)

  -- Whatever the cluster holds and answers, every writing call that a reconcile of an App makes is to
  -- the Deployment, to the Service or to the status with the name and the namespace of that App,
  -- where the client's Get returns the object that it is asked for.
  pub reconcile-Writes :
      (r : AppReconciler) (req : NamespacedName)
      → Answers K
      → Writes K (IsAppWrite req) (reconcile K r req)
  unfolding reconcile read_call
  reconcile-Writes r req answers = record {
    at = λ s.
        (found-Writes r req (api_error (K.get app req s.world).0)
            (λ a e. answers.get_key app req s.world a (api_error-ok _ a e))).at
          (record s { world = (K.get app req s.world).1 });
  }
