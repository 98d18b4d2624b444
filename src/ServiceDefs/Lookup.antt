-- ===== src/ServiceDefs/Lookup.antt =====
-- What `lookup` of servicedef.go finds after a registration, an overlay and a parse.
use paas_controlplane.Base.{
  String, List, [], ◌∷◌, Bool, true, false, Option, none, some, Dict, lookup, insert, lookup-insert,
  to_lower, any, ◌==◌, ◌||◌, ◌≡◌, refl, ap, ◌∙◌, sym, if◌then◌else◌, Result, ok, err, arith,
  Bool-cases, inl, inr, is_zero, not, ◌↔◌, ◌&&◌, ◌⧺◌, ok-injective,
}
use mathlib.Core.Bool.{true≢false}
use mathlib.Core.Option
use paas_controlplane.Kube.{Kube, Cluster, DataObject, config_map, get, read_call, Err, ◌>>=◌}
use paas_controlplane.ServiceDefs.{
  ServiceDefinition, Pointer, ServiceCatalog, index_under, names_of, register, lookup_type,
  check_definition, parse_service_def, checked, overlay_parsed, overlay, merge, catalog,
}

-- Some name of the list is the type t, without regard to case.
unfoldable pub is_named : String → List String → Bool
is_named t names = any (λ name. to_lower name == to_lower t) names

index_under_lem :
    (p : Pointer) (t : String) (names : List String) (m : Dict Pointer)
    → lookup (to_lower t) (index_under p names m)
      ≡ (if is_named t names then some p else lookup (to_lower t) m)
unfolding index_under is_named
index_under_lem p t [] m = refl
index_under_lem p t (name ∷ names) m =
    index_under_lem p t names (insert (to_lower name) p m)
    ∙ ground (arith, lookup-insert (to_lower name) p (to_lower t) m)

-- The definition that a lookup finds.
unfoldable pub definition_of : ServiceCatalog → String → Option ServiceDefinition
definition_of c t = Option.map (λ (p : Pointer). p.definition) (lookup_type (some c) t)

map-if :
    (b : Bool) (p : Pointer) (o : Option Pointer)
    → Option.map (λ (q : Pointer). q.definition) (if b then some p else o)
      ≡ (if b then some p.definition else Option.map (λ (q : Pointer). q.definition) o)
map-if true p o = refl
map-if false p o = refl

-- After a registration a lookup finds the new definition under its type and its aliases, without
-- regard to case, and under every other name what it found before.
pub register_lem :
    (def : ServiceDefinition) (c : ServiceCatalog) (t : String)
    → definition_of (register def c) t
      ≡ (if is_named t (names_of def) then some def else definition_of c t)
unfolding definition_of register lookup_type
register_lem def c t =
    let p : Pointer = record { address = c.next; definition = def } in
    ap (Option.map (λ (q : Pointer). q.definition)) (index_under_lem p t (names_of def) c.by_type)
    ∙ map-if (is_named t (names_of def)) p (lookup (to_lower t) c.by_type)

-- A type, an image, a port and a primary key are given.
unfoldable pub is_complete : ServiceDefinition → Bool
is_complete def =
    not (def.engine == "")
    && not (def.image == "")
    && not (is_zero def.port)
    && not (def.binding.primary_key == "")

check_complete : (def : ServiceDefinition) → is_complete def ≡ true → check_definition def ≡ ok def
unfolding check_definition is_complete
check_complete def h = ground arith

abbrev complaint : ServiceDefinition → String
complaint def =
    if (def.engine == "") || (def.image == "") || is_zero def.port
    then "descriptor needs type, image and port"
    else "descriptor " ⧺ def.engine ⧺ " needs binding.primaryKey"

check_incomplete :
    (def : ServiceDefinition) → is_complete def ≡ false → check_definition def ≡ err (complaint def)
unfolding check_definition is_complete
check_incomplete def h = ground arith

checked_iff :
    (unmarshal : String → Result String ServiceDefinition) (r : Result String ServiceDefinition)
    (def : ServiceDefinition)
    → (checked unmarshal r ≡ ok def) ↔ ((r ≡ ok def) × (is_complete def ≡ true))
checked_iff unmarshal (ok given) def = elim (Bool-cases (is_complete given)) [
  | inl full ↦
      let read = check_complete given full in
      (
        λ h. (sym read ∙ h, ap is_complete (sym (ok-injective given def (sym read ∙ h))) ∙ full),
        λ h. read ∙ h.0,
      )
  | inr part ↦
      let refused = check_incomplete given part in
      (
        λ h. absurd (cc),
        λ h.
            absurd
              (true≢false (sym h.1 ∙ ap is_complete (sym (ok-injective given def h.0)) ∙ part)),
      )
]
checked_iff unmarshal (err e) def = (λ h. absurd (cc), λ h. absurd (cc))

-- A descriptor that parses is one that the YAML library reads and that has a type, an image, a port
-- and a primary key; it is taken as read.
pub parse_service_def_iff :
    (unmarshal : String → Result String ServiceDefinition) (doc : String) (def : ServiceDefinition)
    → (parse_service_def unmarshal doc ≡ ok def)
      ↔ ((unmarshal doc ≡ ok def) × (is_complete def ≡ true))
unfolding parse_service_def
parse_service_def_iff unmarshal doc def = checked_iff unmarshal (unmarshal doc) def

abbrev pub or_else : Option ServiceDefinition → Option ServiceDefinition → Option ServiceDefinition
or_else none b = b
or_else (some a) b = some a

or_else_assoc :
    (a b c : Option ServiceDefinition) → or_else (or_else a b) c ≡ or_else a (or_else b c)
or_else_assoc none b c = refl
or_else_assoc (some x) b c = refl

or_else-if :
    (b : Bool) (def : ServiceDefinition) (o : Option ServiceDefinition)
    → (if b then some def else o) ≡ or_else (if b then some def else none) o
or_else-if true def o = refl
or_else-if false def o = refl

-- What one document of the ConfigMap says of a type: its definition, if it parses and has that name.
abbrev says : Result String ServiceDefinition → String → Option ServiceDefinition
says (ok def) t = if is_named t (names_of def) then some def else none
says (err e) t = none

module _ (unmarshal : String → Result String ServiceDefinition) where
  -- What the last document that names the type says of it.
  unfoldable pub last_named : Dict String → String → Option ServiceDefinition
  unfolding parse_service_def
  last_named [] t = none
  last_named ((name, doc) ∷ docs) t =
      or_else (last_named docs t) (says (parse_service_def unmarshal doc) t)

  overlay_parsed_lem :
      (r : Result String ServiceDefinition) (c : ServiceCatalog) (t : String)
      → definition_of (overlay_parsed unmarshal r c) t ≡ or_else (says r t) (definition_of c t)
  overlay_parsed_lem (err e) c t = refl
  overlay_parsed_lem (ok def) c t =
      register_lem def c t ∙ or_else-if (is_named t (names_of def)) def (definition_of c t)

  -- Under each type, the overlay of a catalog with the documents of the ConfigMap holds the definition of the
  -- last document that parses and names the type, and where there is none, what the catalog held; so
  -- a document that does not parse changes nothing.
  pub overlay_lem :
      (c : ServiceCatalog) (docs : Dict String) (t : String)
      → definition_of (overlay unmarshal c docs) t ≡ or_else (last_named docs t) (definition_of c t)
  unfolding overlay last_named
  overlay_lem c [] t = refl
  overlay_lem c ((name, doc) ∷ docs) t =
      let parsed = parse_service_def unmarshal doc in
      overlay_lem (overlay_parsed unmarshal parsed c) docs t
      ∙ ap (or_else (last_named docs t)) (overlay_parsed_lem parsed c t)
      ∙ sym (or_else_assoc (last_named docs t) (says parsed t) (definition_of c t))

  module _ (K : Kube) (iterate : Dict String → Dict String) where
    -- The documents that count: those of the ConfigMap, none where it cannot be read.
    abbrev pub documents : Result (Err K.Error) DataObject → Dict String
    documents (ok cm) = iterate cm.entries
    documents (err e) = []

    merge_lem :
        (builtins : ServiceCatalog) (got : Result (Err K.Error) DataObject) (t : String)
        → definition_of (merge unmarshal K iterate builtins got) t
          ≡ or_else (last_named (documents got) t) (definition_of builtins t)
    unfolding last_named
    merge_lem builtins (ok cm) t = overlay_lem builtins (iterate cm.entries) t
    merge_lem builtins (err e) t = refl

    -- The catalog is always made, makes no writing call, and holds under each type what the
    -- ConfigMap says of it, in the last document that parses and names the type, or else the builtin definition;
    -- where the ConfigMap is missing or cannot be read, it holds the builtin definitions.
    pub catalog_lem :
        (builtins : ServiceCatalog) (system_namespace : String) (s : Cluster K)
        → (c : ServiceCatalog) × ((catalog unmarshal K iterate builtins system_namespace s).0
            ≡ ok c)
          × ((catalog unmarshal K iterate builtins system_namespace s).1.calls ≡ s.calls)
          × ((t : String)
              → definition_of c t
                ≡ or_else
                    (last_named
                      (documents
                        (get K config_map
                          (record { namespace = system_namespace; name = "paas-servicedefs" })
                          s).0)
                      t)
                    (definition_of builtins t))
    unfolding catalog ◌>>=◌ read_call
    catalog_lem builtins system_namespace s =
        let got =
          (get K config_map (record { namespace = system_namespace; name = "paas-servicedefs" })
            s).0 in
        (merge unmarshal K iterate builtins got, refl, refl, λ t. merge_lem builtins got t)
