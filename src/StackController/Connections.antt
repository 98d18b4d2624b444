-- ===== src/StackController/Connections.antt =====
-- Reconcile's loop over a service's connections, stack_controller.go: an edge to a service with a port
-- becomes its URL, an edge to a backing becomes the backing's env or holds the service back.
pub mod Holding
use paas_controlplane.Base.{
  String, List, [], ◌∷◌, ◌++◌, Bool, true, false, Option, none, some, Dict, lookup, ◌==◌,
  if◌then◌else◌,
}
use paas_controlplane.Api.{ConnectionSpec, ServiceSpec}
use paas_controlplane.Kube.{ContainerEnv, literal}
use paas_controlplane.StackController.Setup.{Backing, env_from_spec}

-- The variables svcEnv and waitBacking of the loop.
pub record Resolved : Type 0 where
  pub env : List ContainerEnv
  pub wait_backing : Bool

abbrev pub to_service : Resolved → ConnectionSpec → String → Resolved
to_service acc c url =
    if c.as_name == ""
    then acc
    else record acc { env = acc.env ++ record { name = c.as_name; source = literal url } ∷ [] }

abbrev pub to_backing : Resolved → ConnectionSpec → Option Backing → Resolved
to_backing acc c none = acc
to_backing acc c (some b) =
    if b.ready
    then (if c.as_name == "" then acc else record acc { env = acc.env ++ b.env c.as_name })
    else record acc { wait_backing = true }

abbrev pub choose : Resolved → ConnectionSpec → Option String → Option Backing → Resolved
choose acc c (some url) b = to_service acc c url
choose acc c none b = to_backing acc c b

-- The body of the loop.
unfoldable pub connect : Dict String → Dict Backing → Resolved → ConnectionSpec → Resolved
unfolding lookup
connect urls backings acc c = choose acc c (lookup c.to urls) (lookup c.to backings)

unfoldable pub connect_all : Dict String → Dict Backing → Resolved → List ConnectionSpec → Resolved
unfolding connect
connect_all urls backings acc [] = acc
connect_all urls backings acc (c ∷ cs) = connect_all urls backings (connect urls backings acc c) cs

unfoldable pub resolve : Dict String → Dict Backing → ServiceSpec → Resolved
unfolding connect_all env_from_spec
resolve urls backings svc =
    connect_all urls backings (record { env = env_from_spec svc.env; wait_backing = false })
      svc.connections
