-- ===== src/StackController/Processes/Names.antt =====
-- The name that the objects of a process share, stack_controller.go.
use text.Mathlib.TextLemmas.{append_cancel_left}
use paas_controlplane.Base.{true, ◌≡◌, ◌↔◌, is_free, joined_lem}
use paas_controlplane.Api.{Stack, ServiceSpec, ProcessSpec}
use paas_controlplane.StackController.Setup.{process_name}

-- Of two processes of a Stack whose services have no dash in their names: their Deployments have the
-- same name exactly if the services have the same name and the processes have the same name.
pub process_name_lem :
    (st : Stack) (svc other : ServiceSpec) (p q : ProcessSpec)
    → is_free "-" svc.name ≡ true
    → is_free "-" other.name ≡ true
    → (process_name st svc p ≡ process_name st other q)
      ↔ ((svc.name ≡ other.name) × (p.name ≡ q.name))
process_name_lem st svc other p q free free' =
    let parts = joined_lem svc.name other.name p.name q.name free free' in
    (
      λ e. parts.0 (append_cancel_left "-" _ _ (append_cancel_left st.meta.name _ _ e)),
      λ (x, y). rw (x, y),
    )
