-- ===== src/StackController/Setup/Urls.antt =====
-- serviceURLs of stack_controller.go, said name by name.
use paas_controlplane.Base.{
  String, List, [], ◌∷◌, Option, none, some, Dict, lookup, lookup-insert, ◌==◌, ◌≡◌, refl, ap, ◌∙◌,
  sym, keep, is_pos, Bool-cases, inl, inr, ◌⧺◌, if◌then◌else◌, arith,
}
use paas_controlplane.Api.{Stack, ServiceSpec, ProcessSpec}
use paas_controlplane.StackController.Setup.{ported, service_url, add_url, urls_from, service_urls}

abbrev or_else : Option String → Option String → Option String
or_else none b = b
or_else (some a) b = some a

-- The processes with a port, in order, and the address of the first one in the cluster's DNS.
abbrev pub address : Stack → ServiceSpec → List ProcessSpec → Option String
address st svc [] = none
address st svc (p ∷ ps) = some (
    "http://"
    ⧺ (st.meta.name ⧺ "-" ⧺ svc.name ⧺ "-" ⧺ p.name)
    ⧺ "."
    ⧺ st.meta.namespace
    ⧺ ".svc.cluster.local")

-- The URL of one service under a name: that of its first process with a port.
abbrev pub own_url : Stack → String → ServiceSpec → Option String
own_url st name svc =
    if svc.name == name then address st svc (keep (λ p. is_pos p.port) svc.processes) else none

-- The URL under a name: that of the last service with the name that has a process with a port.
unfoldable pub url_of : Stack → String → List ServiceSpec → Option String
url_of st name [] = none
url_of st name (svc ∷ svcs) = or_else (url_of st name svcs) (own_url st name svc)

or_else_assoc : (a b c : Option String) → or_else (or_else a b) c ≡ or_else a (or_else b c)
or_else_assoc none b c = refl
or_else_assoc (some x) b c = refl

-- What the loop takes for a service is the address of the head of its processes with a port.
abbrev url_for : Stack → ServiceSpec → Option ProcessSpec → Option String
url_for st svc none = none
url_for st svc (some p) = some (service_url st svc p)

ported-address :
    (st : Stack) (svc : ServiceSpec) (ps : List ProcessSpec)
    → url_for st svc (ported ps) ≡ address st svc (keep (λ p. is_pos p.port) ps)
unfolding ported
ported-address st svc [] = refl
ported-address st svc (p ∷ ps) = elim (Bool-cases (is_pos p.port)) [
  | inl has ↦ rw (has, keep) refl
  | inr lacks ↦ rw (lacks, keep) (ported-address st svc ps)
]

add_url-lookup :
    (st : Stack) (name : String) (svc : ServiceSpec) (p : Option ProcessSpec) (urls : Dict String)
    → lookup name (add_url st svc p urls)
      ≡ or_else (if svc.name == name then url_for st svc p else none) (lookup name urls)
add_url-lookup st name svc none urls = ground arith
add_url-lookup st name svc (some p) urls =
    ground (arith, lookup-insert svc.name (service_url st svc p) name urls)

add_url_lem :
    (st : Stack) (name : String) (svc : ServiceSpec) (urls : Dict String)
    → lookup name (add_url st svc (ported svc.processes) urls)
      ≡ or_else (own_url st name svc) (lookup name urls)
add_url_lem st name svc urls =
    add_url-lookup st name svc (ported svc.processes) urls
    ∙ ap (λ u. or_else (if svc.name == name then u else none) (lookup name urls))
        (ported-address st svc svc.processes)

urls_from_lem :
    (st : Stack) (name : String) (urls : Dict String) (svcs : List ServiceSpec)
    → lookup name (urls_from st urls svcs) ≡ or_else (url_of st name svcs) (lookup name urls)
unfolding urls_from url_of
urls_from_lem st name urls [] = refl
urls_from_lem st name urls (svc ∷ svcs) =
    urls_from_lem st name (add_url st svc (ported svc.processes) urls) svcs
    ∙ ap (or_else (url_of st name svcs)) (add_url_lem st name svc urls)
    ∙ sym (or_else_assoc (url_of st name svcs) (own_url st name svc) (lookup name urls))

or_else-none : (a : Option String) → or_else a none ≡ a
or_else-none none = refl
or_else-none (some x) = refl

-- Under each name, the map of service URLs holds the URL of the last service with the name that has
-- a process with a port, built from the first such process, and nothing where no service has one.
pub service_urls_lem :
    (st : Stack) (name : String) → lookup name (service_urls st) ≡ url_of st name st.spec.services
unfolding service_urls lookup
service_urls_lem st name =
    urls_from_lem st name [] st.spec.services ∙ or_else-none (url_of st name st.spec.services)
