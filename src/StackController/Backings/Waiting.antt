-- ===== src/StackController/Backings/Waiting.antt =====
-- A clone does not start before its data are there, stack_controller.go and servicedef.go.
use paas_controlplane.Base.{
  String, [], ◌∷◌, Bool, true, false, Bool-cases, inl, inr, is_zero, Result, ok, err, sym, subst,
  ◌≡◌, refl,
}
use paas_controlplane.Api.{Stack, BackingSpec, NamespacedName}
use paas_controlplane.Kube.{
  Kube, Io, Kind, secret, service, Call, Verb, Err, Obj, stateful_set, object, pure, raise,
  on_error, ensure, ◌>>=◌,
}
use paas_controlplane.Kube.Gives.{Gives, Gives-pure, Gives-bind, Gives-then, gives_rules}
use paas_controlplane.Kube.Writes.{
  Writes, Writes-mono, Writes-bind, Writes-bind_ok, Writes-lift, writes_rules,
}
use paas_controlplane.Snapshots.{is_preview_clone, stateful_set_exists}
use paas_controlplane.Snapshots.Clones.{prepare_clone_restore}
use paas_controlplane.EnvironmentController.{or_default}
use paas_controlplane.ServiceDefs.{ServiceDefinition}
use paas_controlplane.StackController.Setup.{StackReconciler}
use paas_controlplane.StackController.Buckets.{Provisioned, backing_name_for}
use paas_controlplane.StackController.Volumes.{
  Origin, awaited, restore_unless, restore_new, clone_origin,
}
use paas_controlplane.StackController.Fallback as Fallback
use paas_controlplane.StackController.Templated as Templated
use paas_controlplane.StackController.Backings.Restoring.{
  IsCloneWrite, restore_write, source_write, content_write, prepare_clone_restore-CloneWrites,
}
use paas_controlplane.StackController.Backings.Awaited.{Awaits, clone_origin-Gives}

abbrev pub waiting_for : Stack → BackingSpec → Provisioned
waiting_for st b = record { ready = false; secret_name = backing_name_for st b; pending = true }

abbrev is_set : Kind → Bool
is_set stateful_set = true
is_set _ = false

-- Calls that spare every StatefulSet.
pub data IsSpared : Call → Type 0 where
  spared :
      (v : Verb) (k : Kind) (key : NamespacedName) (b : Bool)
      → is_set k ≡ false
      → IsSpared (record { verb = v; target = object k key; succeeded = b })

secret-IsSpared :
    (v : Verb) (key : NamespacedName) (b : Bool)
    → IsSpared (record { verb = v; target = object secret key; succeeded = b })
secret-IsSpared v key b = spared v secret key b refl

service-IsSpared :
    (v : Verb) (key : NamespacedName) (b : Bool)
    → IsSpared (record { verb = v; target = object service key; succeeded = b })
service-IsSpared v key b = spared v service key b refl

ruleset spares = (writes_rules, secret-IsSpared, service-IsSpared)

clone_write-IsSpared : (st : Stack) (c : Call) → IsCloneWrite st c → IsSpared c
clone_write-IsSpared st _ (restore_write name x) = spared _ _ _ x refl
clone_write-IsSpared st _ (source_write name x) = spared _ _ _ x refl
clone_write-IsSpared st _ (content_write name x) = spared _ _ _ x refl

-- What a reconcile does in that time.
abbrev pub IsWaiting : (K : Kube) (st : Stack) (b : BackingSpec) → Io K Provisioned → Type 0
IsWaiting K st b m = Writes K IsSpared m × Gives K (λ p. p ≡ waiting_for st b) m

module _ (K : Kube) (f : Err K.Error → Err K.Error) where
  secret-Spares :
      (o : Obj secret) (mutate : Obj secret → Result (Err K.Error) (Obj secret))
      → Writes K IsSpared (on_error f (ensure K secret o mutate))
  secret-Spares o mutate = search spares

  service-Spares :
      (o : Obj service) (mutate : Obj service → Result (Err K.Error) (Obj service))
      → Writes K IsSpared (on_error f (ensure K service o mutate))
  service-Spares o mutate = search spares

module _ (K : Kube) (st : Stack) (b : BackingSpec) where
  prepare_clone_restore-Spares : Writes K IsSpared (prepare_clone_restore K st b.name)
  prepare_clone_restore-Spares =
      Writes-mono (clone_write-IsSpared st) (prepare_clone_restore-CloneWrites K st b.name)

  restore_unless-Spares : (exists : Bool) → Writes K IsSpared (restore_unless K st b exists)
  restore_unless-Spares true = search writes_rules
  restore_unless-Spares false = search (writes_rules, prepare_clone_restore-Spares)

  clone_origin-Spares : (persistent : Bool) → Writes K IsSpared (clone_origin K persistent st b)
  unfolding clone_origin restore_new stateful_set_exists
  clone_origin-Spares persistent = search (writes_rules, restore_unless-Spares)

module _ (K : Kube) (r : StackReconciler) (st : Stack) (b : BackingSpec) (awaits : Awaits K st b)
    (preview : is_preview_clone st ≡ true) where
  -- A step that ends in the clone part.
  from_origin-IsWaiting :
      (run : Origin → Io K Provisioned)
      → run awaited ≡ pure (waiting_for st b)
      → IsWaiting K st b (clone_origin K true st b >>= run)
  unfolding pure
  from_origin-IsWaiting run e =
      let origin = clone_origin-Gives K st b awaits preview in
      (
        Writes-bind_ok _ _ (clone_origin-Spares K st b true) (λ s o h.
            subst (λ x. Writes K IsSpared (run x)) (sym (origin.at s o h))
              (subst (Writes K IsSpared) (sym e) (search writes_rules))),
        Gives-bind _ _ origin (λ o h.
            subst (λ x. Gives K (λ p. p ≡ waiting_for st b) (run x)) (sym h)
              (subst (Gives K (λ p. p ≡ waiting_for st b)) (sym e) (Gives-pure _ refl))),
      )

  then-IsWaiting :
      {A : Type 0} (m : Io K A) (f : A → Io K Provisioned)
      → Writes K IsSpared m
      → ((a : A) → IsWaiting K st b (f a))
      → IsWaiting K st b (m >>= f)
  then-IsWaiting m f w waits =
      (Writes-bind m f w (λ a. (waits a).0), Gives-then m f (λ a. (waits a).1))

  raise-IsWaiting : (e : Err K.Error) → IsWaiting K st b (raise e)
  raise-IsWaiting e = (search writes_rules, search gives_rules)

  run_fallback-IsWaiting : IsWaiting K st b (Fallback.run_fallback K r st b)
  unfolding Fallback.run_fallback
  run_fallback-IsWaiting = then-IsWaiting _ _ (secret-Spares K _ _ _) λ _.
      then-IsWaiting _ _ (service-Spares K _ _ _)
        λ _. from_origin-IsWaiting (Fallback.run_from K r st b) refl

  fallback-IsWaiting : IsWaiting K st b (Fallback.reconcile_fallback K r st b)
  unfolding Fallback.reconcile_fallback
  fallback-IsWaiting = elim (Bool-cases (is_zero b.port)) [
    | inl zero ↦ rw zero (raise-IsWaiting _)
    | inr open_port ↦ rw open_port run_fallback-IsWaiting
  ]

  run_templated-IsWaiting :
      (out : Templated.Outside) (def : ServiceDefinition) (image : String)
      → Templated.is_persistent def.persistence ≡ true
      → IsWaiting K st b (Templated.run_templated K out r st b def image)
  unfolding Templated.run_templated or_default
  run_templated-IsWaiting out def image persistent = then-IsWaiting _ _ (secret-Spares K _ _ _) λ _.
      then-IsWaiting _ _ (service-Spares K _ _ _) λ _. then-IsWaiting _ _ (Writes-lift _) λ limits.
        subst
          (λ x. IsWaiting K st b (
            clone_origin K x st b
            >>= Templated.run_from K out r st b def (
                Templated.templated_container def (backing_name_for st b) image
                  (or_default def.port_name def.engine) limits)))
          (sym persistent) (from_origin-IsWaiting _ refl)

  with_image-IsWaiting :
      (out : Templated.Outside) (def : ServiceDefinition)
      → Templated.is_persistent def.persistence ≡ true
      → (image : Result String String)
      → IsWaiting K st b (Templated.with_image K out r st b def image)
  with_image-IsWaiting out def persistent (ok image) =
      run_templated-IsWaiting out def image persistent
  with_image-IsWaiting out def persistent (err e) = raise-IsWaiting _

  templated-IsWaiting :
      (out : Templated.Outside) (def : ServiceDefinition)
      → Templated.is_persistent def.persistence ≡ true
      → IsWaiting K st b (Templated.reconcile_templated K out r st b def)
  unfolding Templated.reconcile_templated or_default
  templated-IsWaiting out def persistent =
      with_image-IsWaiting out def persistent
        (out.render def.image (("Version", or_default b.version def.default_version) ∷ []))

  -- For a preview clone, in the time in which a Get finds no StatefulSet of the backing and a
  -- CreateOrUpdate of the restore snapshot returns one that is not ready to use: the whole reconcile of a
  -- backing by its image, and by the template of a persistent service, writes no StatefulSet, and where it
  -- returns without an error it reports the backing as pending and not ready.
  pub clone_waits :
      (out : Templated.Outside) (def : ServiceDefinition)
      → Templated.is_persistent def.persistence ≡ true
      → IsWaiting K st b (Fallback.reconcile_fallback K r st b)
        × IsWaiting K st b (Templated.reconcile_templated K out r st b def)
  clone_waits out def persistent = (fallback-IsWaiting, templated-IsWaiting out def persistent)
