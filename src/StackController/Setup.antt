-- ===== src/StackController/Setup.antt =====
-- The reconciler's fields and the helpers of stack_controller.go.
pub mod Urls
use paas_controlplane.Base.{
  String, List, [], ◌∷◌, map, Bool, false, Dict, ℤ, is_pos, itoa, insert, ◌⧺◌, ◌==◌, not, Option,
  none, some, any, if◌then◌else◌,
}
use paas_controlplane.Api.{Stack, ServiceSpec, ProcessSpec, Hooks, EnvVar}
use paas_controlplane.Kube.{ContainerEnv, literal, Toleration}
use paas_controlplane.Overcommit.{Overcommit}
use paas_controlplane.AppController.{control_plane_toleration}

-- The fields of StackReconciler beside the client, the scheme and the catalog.
pub record StackReconciler : Type 0 where
  pub tolerate_control_plane : Bool
  pub system_namespace : String
  pub tier : Overcommit
  pub scheduler_name : String
  pub object_storage_class : String
  pub object_endpoint : String

-- The type `backing` of the source: whether it is ready, and the env of a connection to it.
pub record Backing : Type 0 where
  pub ready : Bool
  pub env : String → List ContainerEnv

-- The labels of what belongs to a service or to a backing.
abbrev pub stack_label : String → String × String
stack_label name = ("paas.sh/stack", name)

unfoldable pub tolerations : StackReconciler → List Toleration
tolerations r = if r.tolerate_control_plane then control_plane_toleration ∷ [] else []

abbrev pub sh_command : String → List String
sh_command cmd = "/bin/sh" ∷ "-c" ∷ cmd ∷ []

-- The name of the objects of a process.
abbrev pub process_name : Stack → ServiceSpec → ProcessSpec → String
process_name stack svc p = stack.meta.name ⧺ "-" ⧺ svc.name ⧺ "-" ⧺ p.name

unfoldable pub process_env : List ContainerEnv → ℤ → List ContainerEnv
process_env svc_env port =
    if is_pos port
    then record { name = "PORT"; source = literal (itoa port) } ∷ svc_env
    else svc_env

unfoldable pub env_from_spec : List EnvVar → List ContainerEnv
env_from_spec vars = map (λ e. record { name = e.name; source = literal e.value }) vars

-- The first process of the service that has a port.
unfoldable pub ported : List ProcessSpec → Option ProcessSpec
ported [] = none
ported (p ∷ ps) = let rest = ported ps in if is_pos p.port then some p else rest

abbrev pub service_url : Stack → ServiceSpec → ProcessSpec → String
service_url stack svc p =
    "http://" ⧺ process_name stack svc p ⧺ "." ⧺ stack.meta.namespace ⧺ ".svc.cluster.local"

abbrev add_url : Stack → ServiceSpec → Option ProcessSpec → Dict String → Dict String
add_url stack svc none urls = urls
add_url stack svc (some p) urls = insert svc.name (service_url stack svc p) urls

-- The loop of serviceURLs.
unfoldable pub urls_from : Stack → Dict String → List ServiceSpec → Dict String
unfolding ported insert
urls_from stack urls [] = urls
urls_from stack urls (svc ∷ svcs) =
    urls_from stack (add_url stack svc (ported svc.processes) urls) svcs

unfoldable pub service_urls : Stack → Dict String
unfolding urls_from
service_urls stack = urls_from stack [] stack.spec.services

abbrev pub has_hook : Option Hooks → Bool
has_hook none = false
has_hook (some h) = not (h.release == "")

unfoldable pub has_release_hook : Stack → Bool
has_release_hook stack = any (λ svc. has_hook svc.hooks) stack.spec.services
