-- ===== src/Lib.antt =====
-- The control plane of the platform: controllers that turn App, Release, Environment and Stack objects
-- into Kubernetes objects, and the catalog of backing services that they offer.
--
-- The parts, and how they interact.
--   * Api: the custom resources (api/v1alpha1/*_types.go), which the API server stores and every other
--     part reads.
--   * Kube: what the program uses of controller-runtime and of the Kubernetes API. The client is not
--     part of the repository, so `Kube.Client.Kube` is a record of its calls over a world and errors of any
--     type, and every theorem is for each such record. What a theorem relies on is a named hypothesis
--     (`Answers`, `SetsOwner`, `Stores`), and Tests.Memory and Tests.Lagging have clients that meet it. `Kube.Exec` is the
--     computations: a state and a Go error. `Kube.Calls` has the calls; each writing call is also
--     recorded, with its outcome, in ghost state that no code reads, so that a theorem can say what a
--     reconcile wrote. `Kube.Writes` is the rules for such theorems, `Kube.Strict` those for the
--     calls of a run that returns no error, `Kube.Gives` those for what is returned, `Kube.Owners` those for the functions that the program
--     hands to CreateOrUpdate.
--   * Overcommit (internal/controller/overcommit.go): resource requests from limits by tier.
--   * AppController (internal/controller/app_controller.go): an App becomes a Deployment and a
--     Service that run the image of its newest Release. `reconcile` is Reconcile, cut at its returns
--     into `found`, `reconcile_app`, `roll_out` and `deploy`.
--   * EnvironmentController (internal/controller/environment_controller.go): an Environment becomes a
--     namespace with the tenant baseline and its Stack; `reconcile` is Reconcile, with `reconcile_live`
--     for an Environment that lives and `teardown` for one that goes.
--   * Snapshots (internal/controller/snapshots.go): the labels and names that cloning goes by, and
--     the collection of the artifacts of a clone, which a teardown calls.
--   * ServiceDefs (internal/controller/servicedef.go): the descriptors of template-backed services, the
--     catalog that the builtin ones and a ConfigMap make, and the env of a connection to one.
--   * CatalogApi (internal/controller/catalog_api.go): the catalog as the HTTP API lists it.
--   * StackController (internal/controller/stack_controller.go, and reconcileTemplated of
--     servicedef.go): a Stack becomes its backing services, and for each of its services a release Job
--     and the Deployments and Services of its processes. `Backings.reconcile` is Reconcile;
--     `reconcile_backing` takes each backing to its tier (Postgres, Buckets, Templated, Fallback, with
--     Volumes for what the last two share), and Bindings is the env that each gives. `resolve` is the loop over the connections of a service,
--     `reconcile_service` the body of the loop over the services, `reconcile_release_job` and
--     `reconcile_process` what it calls, `update_status` the end of Reconcile.
--   * EventHub (internal/api/server.go, type hub): the goroutine that sends snapshots of the cluster to
--     the subscribers of the event stream, as a state machine; a sequence of actions is an
--     interleaving. The snapshot is named by the number of events before it.
--   * Twin (internal/api/server.go, twins): the overlay that such a snapshot is: each Stack with its
--     processes and the readiness of its backings. sort.Slice is an insertion sort.
--   * HttpApi (internal/api/server.go, the handlers): a request, which `route` makes of a method and a
--     path, becomes a response and the cluster that it leaves. `HttpApi.Store` has the specification,
--     a dictionary of specs, and what an API server does that stores Stacks: it takes a spec with the defaults
--     of the custom resource's schema, or refuses it, and reads come from a cache that may lag behind;
--     `HttpApi.Stream` is the text that handleEvents
--     writes to the connection; `HttpApi.Owned` adds the reconcile of an Environment that owns one of them.
--   * Entry (main.go): what main makes of its environment, and the steps that may end it.
--
-- How the code is modelled.
--   * A Go function with the client is a computation on a cluster (the world and the recorded calls);
--     an error stops it and leaves the state it had reached. fmt.Errorf with %w is `wrap`. A panic of
--     resource.MustParse passes through every handler. Logging is left out: no code reads it.
--   * A mutate function is a function from the object it is given to the object it leaves, or an
--     error. Its assignments are one record update, `written_...`.
--   * int32 and int64 are the integers ℤ. The program adds only counts of the objects of one
--     namespace, so no overflow is modelled. Timestamps are seconds.
--   * A map of Go is an association list. Where the code ranges over a map whose order Go leaves
--     open, the order is a parameter (`iterate`).
--   * A pointer whose identity the code compares is an address with what it points at.
--   * Texts are by characters. strings.ToLower and EqualFold fold the ASCII letters only; strings.TrimSpace is
--     its left half, which is all that the code tests.
--   * Objects that the code handles as `unstructured` are records of the paths that it sets or reads.
--     The tenant baseline is a template text that is a parameter, and so is the YAML library. What
--     text/template makes of a template and the bytes of crypto/rand are parameters (`Outside`).
--   * Fields named `type`, `to` or `as` in the source have other names where antt reserves
--     them: `engine`, `env_type`, `as_name`.
--   * Loops are recursions on lists, so there is no fuel, except that the digits of a number n are
--     made with n + 1 rounds, and no number has more digits.
--
-- What is not modelled: the HTTP and JSON libraries (a request's body comes decoded, and an
-- encoded overlay is a text), SetupWithManager, which registers the controllers with the manager, the generated deep copies (values have no aliases here), and the deployment manifests.
mod Base
pub mod Api
pub mod Kube
pub mod Overcommit
pub mod AppController
pub mod Snapshots
pub mod EnvironmentController
pub mod ServiceDefs
pub mod CatalogApi
pub mod StackController
pub mod EventHub
pub mod Twin
pub mod HttpApi
pub mod Entry
mod Tests
