-- ===== src/StackController/Backings/Isolation.antt =====
-- What the backings of a Stack write, stack_controller.go, servicedef.go and snapshots.go.
use paas_controlplane.Base.{String, Bool, true, Result, ok, err, ◌≡◌, refl}
use paas_controlplane.Api.{Stack, NamespacedName, key_of}
use paas_controlplane.Kube.{
  Kube, Kind, Answers, Call, Err, MetaObject, create_or_update, update, object, claim, read_call,
  try, api_error, ◌>>=◌,
}
use paas_controlplane.Kube.Writes.{Writes, Writes-mono, writes_rules}
use paas_controlplane.Kube.Owners.{api_error-ok}
use paas_controlplane.StackController.Backings.Restoring.{
  IsCloneWrite, prepare_clone_restore-CloneWrites,
}
use paas_controlplane.Snapshots.{pvc_name_for, is_preview_clone}
use paas_controlplane.Snapshots.Clones.{
  ensure_backup_schedule, label_claim, label_found, label_backup_pvc, prepare_clone_restore,
}

-- The calls that the backings of a Stack may make: objects of any kind in its namespace are created or
-- updated, and the label of a claim there; and for a clone, and only for
-- one, those of prepareCloneRestore.
pub data IsBackingWrite (st : Stack) : Call → Type 0 where
  own_write :
      (k : Kind) (name : String) (b : Bool)
      → IsBackingWrite st (record {
        verb = create_or_update;
        target = object k (record { namespace = st.meta.namespace; name = name });
        succeeded = b;
      })
  claim_write :
      (key : NamespacedName) (b : Bool) (backing_name : String)
      → key
        ≡ record { namespace = st.meta.namespace; name = pvc_name_for st.meta.name backing_name }
      → IsBackingWrite st (record { verb = update; target = object claim key; succeeded = b })
  clone_write : {c : Call} → is_preview_clone st ≡ true → IsCloneWrite st c → IsBackingWrite st c

pub ruleset backing_writes = (writes_rules, own_write)

module _ (K : Kube) (st : Stack) where
  pub ensure_backup_schedule-Writes : Writes K (IsBackingWrite st) (ensure_backup_schedule K st)
  unfolding ensure_backup_schedule
  ensure_backup_schedule-Writes = search backing_writes

  label_claim-Writes :
      (backing_name : String) (pvc : MetaObject)
      → key_of pvc.meta
        ≡ record { namespace = st.meta.namespace; name = pvc_name_for st.meta.name backing_name }
      → Writes K (IsBackingWrite st) (label_claim K backing_name pvc)
  label_claim-Writes backing_name pvc same = search (backing_writes, claim_write, same)

  label_found-Writes :
      (backing_name : String) (got : Result (Err K.Error) MetaObject)
      → ((pvc : MetaObject)
          → got ≡ ok pvc
          → key_of pvc.meta ≡ record {
            namespace = st.meta.namespace;
            name = pvc_name_for st.meta.name backing_name;
          })
      → Writes K (IsBackingWrite st) (label_found K backing_name got)
  label_found-Writes backing_name (ok pvc) same =
      label_claim-Writes backing_name pvc (same pvc refl)
  label_found-Writes backing_name (err e) same = search backing_writes

  pub label_backup_pvc-Writes :
      Answers K
      → (backing_name : String) → Writes K (IsBackingWrite st) (label_backup_pvc K st backing_name)
  unfolding label_backup_pvc read_call ◌>>=◌ try
  label_backup_pvc-Writes answers backing_name =
      let key : NamespacedName = record {
        namespace = st.meta.namespace;
        name = pvc_name_for st.meta.name backing_name;
      } in
      record {
        at = λ s.
            (label_found-Writes backing_name (api_error (K.get claim key s.world).0)
                (λ pvc e. answers.get_key claim key s.world pvc (api_error-ok _ pvc e))).at
              (record s { world = (K.get claim key s.world).1 });
      }

  pub prepare_clone_restore-Writes :
      is_preview_clone st ≡ true
      → (backing_name : String)
      → Writes K (IsBackingWrite st) (prepare_clone_restore K st backing_name)
  prepare_clone_restore-Writes preview backing_name =
      Writes-mono (λ c. clone_write preview) (prepare_clone_restore-CloneWrites K st backing_name)
