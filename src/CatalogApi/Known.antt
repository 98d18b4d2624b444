-- ===== src/CatalogApi/Known.antt =====
-- The types that a catalog knows: servicedef.go, register, LoadBuiltinCatalog and the overlay.
use paas_controlplane.Base.{
  String, List, [], ◌∷◌, Bool, true, false, ◌&&◌, ◌||◌, Option, none, some, Dict, lookup, insert,
  lookup-insert, to_lower, ◌≡◌, refl, sym, ◌∙◌, Result, ok, err, arith, ok-injective, not,
  Bool-cases, inl, inr, ends_with, eq_refl, subst, Result-cases,
}
use paas_controlplane.ServiceDefs.{
  ServiceDefinition, Pointer, ServiceCatalog, index_under, names_of, register, BuiltinFile,
  load_parsed, load_contents, load_file, load_from, parse_service_def, load_entries, empty_catalog,
  overlay, overlay_parsed,
}

abbrev pub all {ℓ} : {A : Type ℓ} → (A → Bool) → List A → Bool
all p [] = true
all p (x ∷ xs) = p x && all p xs

abbrev pub is_there : Option Pointer → Bool
is_there none = false
is_there (some p) = true

-- The map has the type, without regard to case.
unfoldable pub knows : Dict Pointer → String → Bool
knows m t = is_there (lookup (to_lower t) m)

-- The map knows the type of every definition in a list of entries.
unfoldable pub knows_types : Dict Pointer → Dict Pointer → Bool
unfolding knows
knows_types m es = all (λ e. knows m e.1.definition.engine) es

knows-insert :
    (m : Dict Pointer) (name t : String) (p : Pointer)
    → knows m t ≡ true
    → knows (insert (to_lower name) p m) t ≡ true
unfolding knows
knows-insert m name t p h = ground (arith, lookup-insert (to_lower name) p (to_lower t) m)

knows-insert_self :
    (m : Dict Pointer) (t : String) (p : Pointer) → knows (insert (to_lower t) p m) t ≡ true
unfolding knows
knows-insert_self m t p =
    ground (arith, lookup-insert (to_lower t) p (to_lower t) m, eq_refl (to_lower t))

knows_types-insert :
    (m es : Dict Pointer) (k : String) (p : Pointer)
    → knows m p.definition.engine ≡ true
    → knows_types m es ≡ true
    → knows_types m (insert k p es) ≡ true
unfolding knows_types insert
knows_types-insert m [] k p h hs = ground arith
knows_types-insert m ((j, q) ∷ es) k p h hs = ground (arith, knows_types-insert m es k p h)

knows_types_mono :
    (m : Dict Pointer) (name : String) (p : Pointer) (es : Dict Pointer)
    → knows_types m es ≡ true
    → knows_types (insert (to_lower name) p m) es ≡ true
unfolding knows_types
knows_types_mono m name p [] h = refl
knows_types_mono m name p ((j, q) ∷ es) h =
    ground (arith, knows-insert m name q.definition.engine p, knows_types_mono m name p es)

abbrev pub IsClosed : Dict Pointer → Type 0
IsClosed m = knows_types m m ≡ true

insert-IsClosed :
    (m : Dict Pointer) (name : String) (p : Pointer)
    → knows (insert (to_lower name) p m) p.definition.engine ≡ true
    → IsClosed m
    → IsClosed (insert (to_lower name) p m)
insert-IsClosed m name p h c =
    knows_types-insert (insert (to_lower name) p m) m (to_lower name) p h
      (knows_types_mono m name p m c)

index_under-IsClosed :
    (p : Pointer) (names : List String) (m : Dict Pointer)
    → knows m p.definition.engine ≡ true
    → IsClosed m
    → IsClosed (index_under p names m)
unfolding index_under
index_under-IsClosed p [] m h c = c
index_under-IsClosed p (name ∷ names) m h c =
    let there = knows-insert m name p.definition.engine p h in
    index_under-IsClosed p names (insert (to_lower name) p m) there
      (insert-IsClosed m name p there c)

knows-index_under :
    (p : Pointer) (names : List String) (m : Dict Pointer) (t : String)
    → knows m t ≡ true
    → knows (index_under p names m) t ≡ true
unfolding index_under
knows-index_under p [] m t h = h
knows-index_under p (name ∷ names) m t h =
    knows-index_under p names (insert (to_lower name) p m) t (knows-insert m name t p h)

register-IsClosed :
    (def : ServiceDefinition) (c : ServiceCatalog)
    → IsClosed c.by_type
    → IsClosed (register def c).by_type
unfolding register index_under
register-IsClosed def c h =
    let p : Pointer = record { address = c.next; definition = def } in
    let there = knows-insert_self c.by_type def.engine p in
    index_under-IsClosed p def.aliases (insert (to_lower def.engine) p c.by_type) there
      (insert-IsClosed c.by_type def.engine p there h)

module _ (unmarshal : String → Result String ServiceDefinition) where
  parsed-IsClosed :
      (name : String) (c c' : ServiceCatalog) (r : Result String ServiceDefinition)
      → IsClosed c.by_type
      → load_parsed unmarshal name c r ≡ ok c'
      → IsClosed c'.by_type
  parsed-IsClosed name c c' (ok def) h e =
      subst (λ x. IsClosed x.by_type) (ok-injective _ c' e) (register-IsClosed def c h)
  parsed-IsClosed name c c' (err x) h e = absurd (cc)

  contents-IsClosed :
      (name : String) (c c' : ServiceCatalog) (r : Result String String)
      → IsClosed c.by_type
      → load_contents unmarshal name c r ≡ ok c'
      → IsClosed c'.by_type
  contents-IsClosed name c c' (ok doc) h e =
      parsed-IsClosed name c c' (parse_service_def unmarshal doc) h e
  contents-IsClosed name c c' (err x) h e = absurd (cc)

  file-IsClosed :
      (c c' : ServiceCatalog) (f : BuiltinFile)
      → IsClosed c.by_type
      → load_file unmarshal c f ≡ ok c'
      → IsClosed c'.by_type
  file-IsClosed c c' f h e = elim (Bool-cases (f.is_dir || not (ends_with f.name ".yaml"))) [
    | inl skipped ↦ subst (λ x. IsClosed x.by_type) (ok-injective c c' (rw skipped at e)) h
    | inr read ↦ contents-IsClosed f.name c c' f.contents h (rw read at e)
  ]

  load_from-err :
      (x : String) (files : List BuiltinFile) → load_from unmarshal (err x) files ≡ err x
  unfolding load_from
  load_from-err x files = refl

  load_from-IsClosed :
      (c c' : ServiceCatalog) (files : List BuiltinFile)
      → IsClosed c.by_type
      → load_from unmarshal (ok c) files ≡ ok c'
      → IsClosed c'.by_type
  unfolding load_from
  load_from-IsClosed c c' [] h e = subst (λ x. IsClosed x.by_type) (ok-injective c c' e) h
  load_from-IsClosed c c' (f ∷ files) h e = elim (Result-cases (load_file unmarshal c f)) [
    | inl (c₁, loaded) ↦
        load_from-IsClosed c₁ c' files (file-IsClosed c c₁ f h loaded)
          (subst (λ x. load_from unmarshal x files ≡ ok c') loaded e)
    | inr (x, failed) ↦
        let failing : ◌≡◌ {A = Result String ServiceCatalog} (err x) (ok c') =
          sym (load_from-err x files) ∙ subst (λ y. load_from unmarshal y files ≡ ok c') failed e in
        absurd (cc)
  ]

  pub load_entries-IsClosed :
      (dir : Result String (List BuiltinFile)) (c : ServiceCatalog)
      → load_entries unmarshal dir ≡ ok c
      → IsClosed c.by_type
  unfolding knows_types
  load_entries-IsClosed (ok files) c e = load_from-IsClosed empty_catalog c files refl e
  load_entries-IsClosed (err x) c e = absurd (cc)

  -- A document of the ConfigMap takes no type away.
  overlay_parsed-knows :
      (r : Result String ServiceDefinition) (c : ServiceCatalog) (t : String)
      → knows c.by_type t ≡ true
      → knows (overlay_parsed unmarshal r c).by_type t ≡ true
  unfolding register
  overlay_parsed-knows (ok def) c t h =
      knows-index_under (record { address = c.next; definition = def }) (names_of def) c.by_type t h
  overlay_parsed-knows (err e) c t h = h

  pub overlay-knows :
      (docs : Dict String) (c : ServiceCatalog) (t : String)
      → knows c.by_type t ≡ true
      → knows (overlay unmarshal c docs).by_type t ≡ true
  unfolding overlay
  overlay-knows [] c t h = h
  overlay-knows ((name, doc) ∷ docs) c t h =
      overlay-knows docs (overlay_parsed unmarshal (parse_service_def unmarshal doc) c) t
        (overlay_parsed-knows (parse_service_def unmarshal doc) c t h)
