-- ===== src/CatalogApi/Once.antt =====
-- Entries of catalog_api.go lists each definition once.
use paas_controlplane.Base.{
  ℕ, ◌+◌, List, [], ◌∷◌, ◌++◌, map, Bool, true, Dict, nat_eq, any, ◌≡◌, refl, ◌∙◌, if◌then◌else◌,
  arith, text_le, text_le_trans, text_le_total, ◌&&◌,
}
use paas_controlplane.ServiceDefs.{Pointer, ServiceCatalog}
use paas_controlplane.CatalogApi.{
  CatalogEntry, operator_tier_entries, template_entry, is_seen, unseen, insert_entry, sort_entries,
  entries,
}

-- Whether a pointer with the address is in the map.
unfoldable pub points : ℕ → Dict Pointer → Bool
points a m = any (λ e. nat_eq a e.1.address) m

unfoldable pub times : ℕ → List Pointer → ℕ
times a [] = 0
times a (p ∷ ps) = let rest = times a ps in if nat_eq a p.address then 1 + rest else rest

times-unseen :
    (a : ℕ) (seen : List ℕ) (m : Dict Pointer)
    → times a (unseen seen m) ≡ (if is_seen a seen then 0 else (if points a m then 1 else 0))
unfolding times unseen points
times-unseen a seen [] = ground arith
times-unseen a seen ((name, p) ∷ m) =
    ground (arith, times-unseen a seen m, times-unseen a (p.address ∷ seen) m)

-- The loop of Entries keeps each pointer of the map exactly once, and no other: the aliases of a
-- definition fall together.
pub unseen_lem : (a : ℕ) (m : Dict Pointer) → times a (unseen [] m) ≡ (if points a m then 1 else 0)
unseen_lem a m = times-unseen a [] m

unfoldable pub count_entries : (CatalogEntry → Bool) → List CatalogEntry → ℕ
count_entries q [] = 0
count_entries q (e ∷ es) = let rest = count_entries q es in if q e then 1 + rest else rest

count-insert_entry :
    (q : CatalogEntry → Bool) (e : CatalogEntry) (es : List CatalogEntry)
    → count_entries q (insert_entry e es) ≡ count_entries q (e ∷ es)
unfolding count_entries insert_entry
count-insert_entry q e [] = refl
count-insert_entry q e (f ∷ fs) = ground (arith, count-insert_entry q e fs)

count-sort_entries :
    (q : CatalogEntry → Bool) (es : List CatalogEntry)
    → count_entries q (sort_entries es) ≡ count_entries q es
unfolding count_entries sort_entries
count-sort_entries q [] = refl
count-sort_entries q (e ∷ es) =
    count-insert_entry q e (sort_entries es) ∙ ground (arith, count-sort_entries q es)

count-append :
    (q : CatalogEntry → Bool) (xs ys : List CatalogEntry)
    → count_entries q (xs ++ ys) ≡ count_entries q xs + count_entries q ys
unfolding count_entries
count-append q [] ys = omega arith
count-append q (x ∷ xs) ys = ground (arith, count-append q xs ys)

-- No entry of the list has a type before e's.
unfoldable pub comes_first : CatalogEntry → List CatalogEntry → Bool
comes_first e [] = true
comes_first e (f ∷ fs) = text_le e.engine f.engine && comes_first e fs

unfoldable pub is_sorted : List CatalogEntry → Bool
unfolding comes_first
is_sorted [] = true
is_sorted (e ∷ es) = comes_first e es && is_sorted es

comes_first-insert_entry :
    (d e : CatalogEntry) (es : List CatalogEntry)
    → text_le d.engine e.engine ≡ true
    → comes_first d es ≡ true
    → comes_first d (insert_entry e es) ≡ true
unfolding comes_first insert_entry
comes_first-insert_entry d e [] h k = ground arith
comes_first-insert_entry d e (f ∷ fs) h k = ground (arith, comes_first-insert_entry d e fs)

comes_first_trans :
    (d e : CatalogEntry) (es : List CatalogEntry)
    → text_le d.engine e.engine ≡ true
    → comes_first e es ≡ true
    → comes_first d es ≡ true
unfolding comes_first
comes_first_trans d e [] h k = refl
comes_first_trans d e (f ∷ fs) h k =
    ground (arith, text_le_trans d.engine e.engine f.engine, comes_first_trans d e fs)

is_sorted-insert_entry :
    (e : CatalogEntry) (es : List CatalogEntry)
    → is_sorted es ≡ true
    → is_sorted (insert_entry e es) ≡ true
unfolding is_sorted insert_entry
is_sorted-insert_entry e [] h = refl
is_sorted-insert_entry e (f ∷ fs) h = ground (
  arith,
  is_sorted-insert_entry e fs,
  comes_first-insert_entry f e fs,
  comes_first_trans e f fs,
  text_le_total e.engine f.engine,
)

is_sorted-sort_entries : (es : List CatalogEntry) → is_sorted (sort_entries es) ≡ true
unfolding sort_entries is_sorted
is_sorted-sort_entries [] = refl
is_sorted-sort_entries (e ∷ es) =
    is_sorted-insert_entry e (sort_entries es) (is_sorted-sort_entries es)

-- The list that Entries returns is sorted by type and holds the two operator entries and one entry
-- for each pointer that the loop keeps, and nothing else: it has as many entries that pass any test.
pub entries_lem :
    (iterate : Dict Pointer → Dict Pointer) (c : ServiceCatalog)
    → (is_sorted (entries iterate c) ≡ true)
      × ((q : CatalogEntry → Bool)
          → count_entries q (entries iterate c)
            ≡ count_entries q operator_tier_entries
              + count_entries q
                  (map (λ p. template_entry p.definition) (unseen [] (iterate c.by_type))))
unfolding entries
entries_lem iterate c =
    let templates = map (λ p. template_entry p.definition) (unseen [] (iterate c.by_type)) in
    (
      is_sorted-sort_entries (operator_tier_entries ++ templates),
      λ q.
          count-sort_entries q (operator_tier_entries ++ templates)
          ∙ count-append q operator_tier_entries templates,
    )
