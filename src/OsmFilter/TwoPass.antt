-- ===== src/OsmFilter/TwoPass.antt =====
-- The two passes lose no coordinate that a way needs.
use fwh_osm.Prelude.{
  ℕ, true, false, none, some, List, [], ◌∷◌, ◌≡◌, inl, inr, refl, sym, ◌∙◌, ap, subst, arith,
  length, is_empty, Bool-cases,
}
use fwh_osm.OsmFilter.Elements.{Coords, coords_of}
use fwh_osm.OsmFilter.Scan.{
  Entity, Filter, Handler, new_handler, is_needed, scan, collect_nodes, dependencies, node_coords,
  features_of, filter_pbf_by_type,
}
use fwh_osm.OsmFilter.Collector.{or_else-none, collect_nodes-needed}
use fwh_osm.OsmFilter.FirstPass.{refs_of, scan-IsScanned}
use fwh_osm.OsmFilter.Agree.{features_of-agree, features_of-matched}
use fwh_osm.OsmFilter.Direct.{node_at, matched, all_coords, direct_features}

needed-nonempty : (k : ℕ) (ns : List ℕ) → is_needed k ns ≡ true → is_empty ns ≡ false
unfolding is_needed
needed-nonempty k [] h = cc
needed-nonempty k (n ∷ ns) h = refl

second_pass :
    (f : Filter) (file : List Entity) (h : Handler)
    → f.include_dependencies ≡ true
    → is_empty h.needed_node_ids ≡ false
    → dependencies f file h ≡ collect_nodes h.needed_node_ids file []
unfolding dependencies
second_pass f file h deps some_needed = ground (arith, deps, some_needed)

node_coords-some :
    (f : Filter) (nodes : Coords)
    → f.include_dependencies ≡ true
    → node_coords f nodes ≡ some (λ k. coords_of k nodes)
unfolding node_coords
node_coords-some f nodes deps = rw deps

node_coords-none :
    (f : Filter) (nodes : Coords) → f.include_dependencies ≡ false → node_coords f nodes ≡ none
unfolding node_coords
node_coords-none f nodes alone = rw alone

all_coords-some :
    (f : Filter) (file : List Entity)
    → f.include_dependencies ≡ true
    → all_coords f file ≡ some (λ k. node_at k file)
all_coords-some f file deps = rw deps

all_coords-none :
    (f : Filter) (file : List Entity) → f.include_dependencies ≡ false → all_coords f file ≡ none
all_coords-none f file alone = rw alone

module _ (f : Filter) (file : List Entity) where
  abbrev first_pass : Handler
  first_pass = scan f file new_handler

  looked_up :
      (k : ℕ)
      → f.include_dependencies ≡ true
      → is_needed k (refs_of (matched f file)) ≡ true
      → coords_of k (dependencies f file first_pass) ≡ node_at k file
  looked_up k deps m =
      let scanned = scan-IsScanned f file new_handler in
      let wanted : is_needed k first_pass.needed_node_ids ≡ true =
        subst (λ l. is_needed k l ≡ true) (sym (scanned.needed deps)) m in
      let some_needed = needed-nonempty k first_pass.needed_node_ids wanted in
      ap (coords_of k) (second_pass f file first_pass deps some_needed)
      ∙ collect_nodes-needed first_pass.needed_node_ids k file [] wanted
      ∙ (unfold coords_of in or_else-none (node_at k file))

  -- The features that `filter_pbf_by_type` writes are the ones that the definition on the whole
  -- file gives: for each element that matches, in the order of the file, its feature, where a way
  -- has the coordinates of all its nodes that are in the file, wherever they stand, if
  -- dependencies are included. So the first pass notes every node that the second one must look up.
  -- The number of elements that is reported is that of the file.
  pub filter_pbf_by_type-direct :
      ((filter_pbf_by_type f file).features ≡ direct_features f file file)
      × ((filter_pbf_by_type f file).original_count ≡ length file)
  unfolding filter_pbf_by_type
  filter_pbf_by_type-direct =
      let scanned = scan-IsScanned f file new_handler in
      let nodes = dependencies f file first_pass in
      (
        elim (Bool-cases f.include_dependencies) [
          | inl deps ↦
              ap (features_of (node_coords f nodes)) scanned.elements
              ∙ ap (λ c. features_of c (matched f file)) (node_coords-some f nodes deps)
              ∙ features_of-agree (matched f file) (λ k. coords_of k nodes) (λ k. node_at k file)
                  (λ k m. looked_up k deps m)
              ∙ ap (λ c. features_of c (matched f file)) (sym (all_coords-some f file deps))
              ∙ features_of-matched f file file
          | inr alone ↦
              ap (features_of (node_coords f nodes)) scanned.elements
              ∙ ap (λ c. features_of c (matched f file))
                  (node_coords-none f nodes alone ∙ sym (all_coords-none f file alone))
              ∙ features_of-matched f file file
        ],
        (let t = scanned.total in omega (arith, t)),
      )
