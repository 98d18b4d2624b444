-- ===== src/Tests/Apps.antt =====
-- The App controller on a cluster in memory.
use mathlib.Core.List.{Memᴰ}
use paas_controlplane.Base.{
  ℕ, String, [], ◌∷◌, ◌≡◌, refl, ◌≢◌, ◌↔◌, none, some, true, pos, err, All,
}
use paas_controlplane.Api.{App, Release, NamespacedName, named}
use paas_controlplane.Kube.{
  panicked, ensure, fresh_deployment, deployment, record_call, read_call, Cluster, app, release,
  done,
}
use paas_controlplane.Kube.Writes.{Made, Writes}
use paas_controlplane.Kube.Strict.{IsSettled}
use paas_controlplane.Kube.Owners.{IsStable}
use paas_controlplane.Overcommit.{dev}
use paas_controlplane.AppController.{
  AppReconciler, normalize_image, newest_from, mutate_deployment, mutate_service, deploy, reconcile,
}
use paas_controlplane.AppController as Apps
use paas_controlplane.AppController.Newest.{NoNewer, newest_from_lem}
use paas_controlplane.AppController.Mutate.{mutate_service-IsStable}
use paas_controlplane.AppController.Reconcile.{IsAppWrite, reconcile-Writes}
use paas_controlplane.AppController.Settled.{app-IsSettled}
use paas_controlplane.Tests.Memory.{nothing, put, memory, memory-SetsOwner, memory-Answers, cluster}

abbrev pub blog : App
blog = record {
  meta = named "tenants" "blog";
  spec = record {
    owner = "";
    port = pos 0;
    replicas = pos 0;
    env = record { name = "MODE"; value = "live" } ∷ [];
    resources = record { cpu = ""; memory = "" };
    domains = [];
  };
  status = record {
    phase = "";
    image = "";
    url = "";
    ready_replicas = pos 0;
    observed_generation = pos 0;
  };
}

abbrev release_at : String → ℕ → String → Release
release_at name time image = record {
  meta = record (named "tenants" name) { creation_timestamp = time };
  spec = record { app = "blog"; image = image; git_sha = "" };
  status = record { phase = "" };
}

abbrev old : Release
old = release_at "r1" 10 "registry.local:5000/blog:1"

abbrev new : Release
new = release_at "r2" 20 "registry.local:5000/blog:2"

abbrev pub server : AppReconciler
server = record { tolerate_control_plane = true; tier = dev; scheduler_name = "" }

abbrev blog_key : NamespacedName
blog_key = record { namespace = "tenants"; name = "blog" }

mirrored : normalize_image "registry.local:5000/blog:1" ≡ "registry.local/blog:1"
unfolding normalize_image
mirrored = refl

newest : newest_from "blog" none (old ∷ new ∷ []) ≡ some new
unfolding newest_from
newest = refl

newest_from_lem_example :
    ((newest_from "blog" none (old ∷ new ∷ []) ≡ none)
      ↔ All (λ rel. rel.spec.app ≢ "blog") (old ∷ new ∷ []))
    × ((r : Release)
        → newest_from "blog" none (old ∷ new ∷ []) ≡ some r
        → Memᴰ r (old ∷ new ∷ [])
          × (r.spec.app ≡ "blog")
          × All (NoNewer "blog" r.meta.creation_timestamp) (old ∷ new ∷ []))
newest_from_lem_example = newest_from_lem "blog" (old ∷ new ∷ [])

mutate_service-IsStable_example : IsStable (mutate_service memory blog)
mutate_service-IsStable_example = mutate_service-IsStable memory memory-SetsOwner blog

reconcile-Writes_example : Writes memory (IsAppWrite blog_key) (reconcile memory server blog_key)
reconcile-Writes_example = reconcile-Writes memory server blog_key memory-Answers

abbrev too_many : App
too_many = record blog {
  spec = record blog.spec { resources = record { cpu = "many"; memory = "" } };
}

-- A quantity that does not parse panics before anything is written.
typo_panics : deploy memory server too_many "blog:2" (cluster nothing) ≡ (
  err (panicked "many"),
  (ensure memory deployment
      (fresh_deployment (named "tenants" "blog"))
      (mutate_deployment memory server too_many "blog:2")
      (cluster nothing)).1,
)
unfolding deploy record_call mutate_deployment
typo_panics = refl

abbrev stored_app : Cluster memory
stored_app = cluster (put app blog (put release old (put release new nothing)))

app-IsSettled_example :
    Made (IsSettled (λ _. ⊥)) [] (reconcile memory server blog_key stored_app).1.calls
unfolding reconcile record_call read_call Apps.roll_out deploy mutate_deployment mutate_service
app-IsSettled_example = app-IsSettled memory server blog_key stored_app done refl
