-- ===== src/StackController/Connections/Holding.antt =====
-- What the loop over the connections computes, said connection by connection.
use paas_controlplane.Base.{
  String, List, [], ◌∷◌, ◌++◌, Bool, false, Option, none, some, Dict, lookup, ◌==◌, ◌≡◌, any, not,
  ◌||◌, if◌then◌else◌, Bool-cases, sym, ap, ◌∙◌, inl, inr,
}
use mathlib.Core.Bool.{or_assoc, or-false, or-true}
use mathlib.Core.List.{append_assoc, append-nil}
use paas_controlplane.Api.{ConnectionSpec, ServiceSpec}
use paas_controlplane.Kube.{ContainerEnv, literal}
use paas_controlplane.StackController.Setup.{Backing, env_from_spec}
use paas_controlplane.StackController.Connections.{
  Resolved, to_service, to_backing, choose, connect, connect_all, resolve,
}

abbrev holds : Option String → Option Backing → Bool
holds (some url) b = false
holds none none = false
holds none (some b) = not b.ready

-- A connection holds its service back when its target is no service with a port, and is a backing
-- that is not ready.
unfoldable pub is_holding : Dict String → Dict Backing → ConnectionSpec → Bool
is_holding urls backings c = holds (lookup c.to urls) (lookup c.to backings)

abbrev edge : ConnectionSpec → Option String → Option Backing → List ContainerEnv
edge c (some url) b =
    if c.as_name == "" then [] else record { name = c.as_name; source = literal url } ∷ []
edge c none none = []
edge c none (some b) = if b.ready then (if c.as_name == "" then [] else b.env c.as_name) else []

-- The variables that a connection with a name gives its service: the URL of a service, or else the
-- env of a ready backing.
unfoldable pub edge_env : Dict String → Dict Backing → ConnectionSpec → List ContainerEnv
edge_env urls backings c = edge c (lookup c.to urls) (lookup c.to backings)

unfoldable pub edges_env : Dict String → Dict Backing → List ConnectionSpec → List ContainerEnv
unfolding edge_env
edges_env urls backings [] = []
edges_env urls backings (c ∷ cs) = edge_env urls backings c ++ edges_env urls backings cs

abbrev extended : Resolved → List ContainerEnv → Bool → Resolved
extended acc env held = record { env = acc.env ++ env; wait_backing = acc.wait_backing || held }

extended-nothing : (acc : Resolved) → extended acc [] false ≡ acc
extended-nothing acc =
    λ i. record { env = append-nil acc.env i; wait_backing = or-false acc.wait_backing i }

extended_again :
    (acc : Resolved) (env env' : List ContainerEnv) (held held' : Bool)
    → extended (extended acc env held) env' held' ≡ extended acc (env ++ env') (held || held')
extended_again acc env env' held held' = λ i. record {
  env = append_assoc acc.env env env' i;
  wait_backing = or_assoc acc.wait_backing held held' i;
}

to_service_lem :
    (acc : Resolved) (c : ConnectionSpec) (url : String)
    → to_service acc c url ≡ extended acc (edge c (some url) none) false
to_service_lem acc c url = elim (Bool-cases (c.as_name == "")) [
  | inl e ↦ rw (e, extended-nothing acc)
  | inr e ↦ rw (e, or-false acc.wait_backing)
]

to_backing_lem :
    (acc : Resolved) (c : ConnectionSpec) (b : Backing)
    → to_backing acc c (some b) ≡ extended acc (edge c none (some b)) (not b.ready)
to_backing_lem acc c b = elim (Bool-cases b.ready) [
  | inl ready ↦ elim (Bool-cases (c.as_name == "")) [
    | inl e ↦ rw (ready, e, extended-nothing acc)
    | inr e ↦ rw (ready, e, or-false acc.wait_backing)
  ]
  | inr ready ↦ rw (ready, append-nil acc.env, or-true acc.wait_backing)
]

choose_lem :
    (acc : Resolved) (c : ConnectionSpec) (url : Option String) (b : Option Backing)
    → choose acc c url b ≡ extended acc (edge c url b) (holds url b)
choose_lem acc c (some url) b = to_service_lem acc c url
choose_lem acc c none none = sym (extended-nothing acc)
choose_lem acc c none (some b) = to_backing_lem acc c b

connect_all_lem :
    (urls : Dict String) (backings : Dict Backing) (acc : Resolved) (cs : List ConnectionSpec)
    → connect_all urls backings acc cs
      ≡ extended acc (edges_env urls backings cs) (any (is_holding urls backings) cs)
unfolding connect_all connect edges_env edge_env is_holding
connect_all_lem urls backings acc [] = sym (extended-nothing acc)
connect_all_lem urls backings acc (c ∷ cs) =
    connect_all_lem urls backings (connect urls backings acc c) cs
    ∙ ap (λ x. extended x (edges_env urls backings cs) (any (is_holding urls backings) cs))
        (choose_lem acc c (lookup c.to urls) (lookup c.to backings))
    ∙ extended_again acc (edge_env urls backings c) (edges_env urls backings cs)
        (is_holding urls backings c) (any (is_holding urls backings) cs)

-- The loop over the connections of a service gives the service its own variables and then, in the
-- order of the connections, those of each connection; the service is held back exactly if some
-- connection holds it back.
pub resolve_lem :
    (urls : Dict String) (backings : Dict Backing) (svc : ServiceSpec)
    → resolve urls backings svc ≡ record {
      env = env_from_spec svc.env ++ edges_env urls backings svc.connections;
      wait_backing = any (is_holding urls backings) svc.connections;
    }
unfolding resolve
resolve_lem urls backings svc = connect_all_lem urls backings _ svc.connections
