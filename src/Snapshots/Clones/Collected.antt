-- ===== src/Snapshots/Clones/Collected.antt =====
-- What a clone leaves outside its namespace is what the teardown collects, snapshots.go.
use paas_controlplane.Base.{String, Option, lookup, none, some, ◌≡◌, All}
use paas_controlplane.Api.{Meta}
use paas_controlplane.Kube.{ListOptions}

-- A list without a namespace is one of the whole cluster.
abbrev pub InScope : Option String → String → Type 0
InScope none ns = Unit
InScope (some wanted) ns = ns ≡ wanted

-- The list finds the object: it is in the namespace and has each label that the options ask for.
abbrev pub Matches : ListOptions → Meta → Type 0
Matches options m =
    InScope options.namespace m.namespace
    × All (λ e. lookup e.0 m.labels ≡ some e.1) options.matching_labels
