-- ===== src/CatalogApi/Provided.antt =====
-- Every type that the API's catalog lists is one that the Stack controller provides: catalog_api.go
-- against servicedef.go and the switch of reconcileBacking.
use paas_controlplane.Base.{
  ℕ, String, List, [], ◌∷◌, ◌++◌, map, Bool, true, false, ◌&&◌, Dict, to_lower, ◌≡◌, refl, sym, ap,
  ◌∙◌, Result, ok, err, arith,
}
use paas_controlplane.ServiceDefs.{
  ServiceDefinition, Pointer, ServiceCatalog, lookup_type, BuiltinFile, load_builtin_catalog, merge,
}
use mathlib.Core.Bool.{Bool-set}
use mathlib.Core.List.{foldr, Perm}
use mathlib.Core.List.Perm
use paas_controlplane.Api.{BackingSpec}
use paas_controlplane.Kube.{Kube, Err, DataObject}
use paas_controlplane.CatalogApi.{
  CatalogEntry, operator_tier_entries, template_entry, unseen, insert_entry, sort_entries, entries,
}
use paas_controlplane.StackController.Backings.{
  Tier, postgres_tier, object_tier, fallback_tier, uncataloged, template_tier, tier_of,
}
use paas_controlplane.CatalogApi.Known.{
  all, knows, knows_types, load_entries-IsClosed, overlay-knows,
}

-- The tiers that the control plane provides on its own, with no image of the tenant's.
abbrev pub provides : Tier → Bool
provides postgres_tier = true
provides object_tier = true
provides (template_tier def) = true
provides fallback_tier = false
provides uncataloged = false

-- A backing of the type is provided.
unfoldable pub provided : ServiceCatalog → BackingSpec → String → Bool
unfolding tier_of
provided cat b t = provides (tier_of cat (record b { engine = t }))

provided-knows :
    (cat : ServiceCatalog) (b : BackingSpec) (t : String)
    → knows cat.by_type t ≡ true
    → provided cat b t ≡ true
unfolding provided knows lookup_type
provided-knows cat b t h = ground arith

all-unseen :
    (f : Pointer → Bool) (seen : List ℕ) (m : Dict Pointer)
    → all (λ e. f e.1) m ≡ true
    → all f (unseen seen m) ≡ true
unfolding unseen
all-unseen f seen [] h = refl
all-unseen f seen ((name, p) ∷ m) h =
    ground (arith, all-unseen f seen m, all-unseen f (p.address ∷ seen) m)

all-insert_entry :
    (f : CatalogEntry → Bool) (e : CatalogEntry) (es : List CatalogEntry)
    → all f (e ∷ es) ≡ true
    → all f (insert_entry e es) ≡ true
unfolding insert_entry
all-insert_entry f e [] h = h
all-insert_entry f e (d ∷ es) h = ground (arith, all-insert_entry f e es)

all-sort_entries :
    (f : CatalogEntry → Bool) (es : List CatalogEntry)
    → all f es ≡ true
    → all f (sort_entries es) ≡ true
unfolding sort_entries
all-sort_entries f [] h = refl
all-sort_entries f (e ∷ es) h =
    ground (arith, all-sort_entries f es, all-insert_entry f e (sort_entries es))

all-templates :
    (f : CatalogEntry → Bool) (ps : List Pointer)
    → all (λ p. f (template_entry p.definition)) ps ≡ true
    → all f (map (λ p. template_entry p.definition) ps) ≡ true
all-templates f [] h = refl
all-templates f (p ∷ ps) h = ground (arith, all-templates f ps)

all-append :
    {A : Type 0} (f : A → Bool) (xs ys : List A)
    → all f xs ≡ true
    → all f ys ≡ true
    → all f (xs ++ ys) ≡ true
all-append f [] ys h k = k
all-append f (x ∷ xs) ys h k = ground (arith, all-append f xs ys)

all-weaken :
    {A : Type 0} (f g : A → Bool) (xs : List A)
    → ((x : A) → f x ≡ true → g x ≡ true)
    → all f xs ≡ true
    → all g xs ≡ true
all-weaken f g [] w h = refl
all-weaken f g (x ∷ xs) w h = ground (arith, w x, all-weaken f g xs w)

all-foldr : {A : Type 0} (f : A → Bool) (xs : List A) → all f xs ≡ foldr (λ x b. f x && b) true xs
all-foldr f [] = refl
all-foldr f (x ∷ xs) = ap (λ b. f x && b) (all-foldr f xs)

all-Perm : {A : Type 0} (f : A → Bool) (xs ys : List A) → Perm xs ys → all f xs ≡ all f ys
all-Perm f xs ys p =
    all-foldr f xs
    ∙ Perm.foldr-eq Bool-set (λ x b. f x && b) (λ x y b. ground arith) p true
    ∙ sym (all-foldr f ys)

provided-operators :
    (cat : ServiceCatalog) (b : BackingSpec)
    → all (λ e. provided cat b e.engine) operator_tier_entries ≡ true
unfolding provided operator_tier_entries to_lower
provided-operators cat b = refl

merge-knows :
    (unmarshal : String → Result String ServiceDefinition) (K : Kube)
    (order : Dict String → Dict String) (c : ServiceCatalog) (got : Result (Err K.Error) DataObject)
    (t : String)
    → knows c.by_type t ≡ true
    → knows (merge unmarshal K order c got).by_type t ≡ true
merge-knows unmarshal K order c (ok cm) t h = overlay-knows unmarshal (order cm.entries) c t h
merge-knows unmarshal K order c (err e) t h = h

-- For every folder of descriptors that loads, every order in which Go ranges over the catalog and
-- every state of the ConfigMap: each type that the API lists is one that the Stack controller
-- provides on its own, for a backing of that type with whatever other fields.
pub entries-provided :
    (unmarshal : String → Result String ServiceDefinition) (dir : Result String (List BuiltinFile))
    (builtins : ServiceCatalog) (K : Kube) (order : Dict String → Dict String)
    (got : Result (Err K.Error) DataObject) (iterate : Dict Pointer → Dict Pointer)
    (b : BackingSpec)
    → load_builtin_catalog unmarshal dir ≡ ok builtins
    → ((m : Dict Pointer) → Perm m (iterate m))
    → all
        (λ e. provided (merge unmarshal K order builtins got) b e.engine)
        (entries iterate builtins)
      ≡ true
unfolding entries load_builtin_catalog template_entry knows_types
entries-provided unmarshal dir builtins K order got iterate b loaded permutes =
    let cat = merge unmarshal K order builtins got in
    let m = builtins.by_type in
    let f = λ (e : CatalogEntry). provided cat b e.engine in
    let known = λ (e : String × Pointer). knows m e.1.definition.engine in
    let known_all : all known (iterate m) ≡ true =
      sym (all-Perm known m (iterate m) (permutes m))
      ∙ load_entries-IsClosed unmarshal dir builtins loaded in
    let provided_all =
      all-weaken known (λ e. provided cat b e.1.definition.engine) (iterate m)
        (λ e h.
          provided-knows cat b e.1.definition.engine
            (merge-knows unmarshal K order builtins got e.1.definition.engine h))
        known_all in
    let templates = map (λ (p : Pointer). template_entry p.definition) (unseen [] (iterate m)) in
    all-sort_entries f (operator_tier_entries ++ templates) (
      all-append f operator_tier_entries templates (provided-operators cat b) (
        all-templates f (unseen [] (iterate m))
          (all-unseen (λ p. provided cat b p.definition.engine) [] (iterate m) provided_all)))
