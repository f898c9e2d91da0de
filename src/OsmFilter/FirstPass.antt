-- ===== src/OsmFilter/FirstPass.antt =====
-- The first pass: the elements that match, and the nodes that they need.
use fwh_osm.Prelude.{
  append_none, append_assoc, ℕ, suc, ◌+◌, true, ◌&&◌, List, [], ◌∷◌, ◌++◌, ◌≡◌, inl, inr, refl, sym,
  ◌∙◌, ap, arith, length, Bool-cases,
}
use fwh_osm.OsmFilter.Elements.{Element}
use fwh_osm.OsmFilter.Scan.{
  Entity, node, way, relation, Filter, matches_filter, element_of, Handler, is_needed, collect,
  note_node, visit, scan,
}
use fwh_osm.OsmFilter.Direct.{matched_one, matched}

abbrev pub refs_of : List Element → List ℕ
refs_of [] = []
refs_of (e ∷ es) = e.node_refs ++ refs_of es

-- The first pass: the elements that match, the nodes that they need, the count.
pub record IsScanned (f : Filter) (xs : List Entity) (h h' : Handler) : Type 0 where
  pub elements : h'.elements ≡ h.elements ++ matched f xs
  pub needed :
      f.include_dependencies ≡ true
      → h'.needed_node_ids ≡ h.needed_node_ids ++ refs_of (matched f xs)
  pub total : h'.total_count ≡ h.total_count + length xs

note_node-same :
    (f : Filter) (x : Entity) (h : Handler)
    → ((note_node f x h).elements ≡ h.elements)
      × ((note_node f x h).needed_node_ids ≡ h.needed_node_ids)
      × ((note_node f x h).total_count ≡ h.total_count)
unfolding note_node
note_node-same f (node id tags at) h =
    elim (Bool-cases (f.include_dependencies && is_needed id h.needed_node_ids)) [
      | inl hit ↦ rw hit (refl, refl, refl)
      | inr miss ↦ rw miss (refl, refl, refl)
    ]
note_node-same f (way id tags refs) h = (refl, refl, refl)
note_node-same f (relation id tags members) h = (refl, refl, refl)

collect-elements :
    (f : Filter) (x : Entity) (h : Handler)
    → (collect f x h).elements ≡ h.elements ++ matched_one f x
unfolding collect matched_one
collect-elements f x h = ground (arith, append_none h.elements)

collect-total :
    (f : Filter) (x : Entity) (h : Handler) → (collect f x h).total_count ≡ h.total_count
unfolding collect
collect-total f x h = ground arith

collect-needed :
    (f : Filter) (x : Entity) (h : Handler)
    → f.include_dependencies ≡ true
    → (collect f x h).needed_node_ids ≡ h.needed_node_ids ++ refs_of (matched_one f x)
unfolding collect matched_one
collect-needed f x h deps =
    elim (Bool-cases (matches_filter f (element_of x).tags (element_of x).osm_type)) [
      | inl hit ↦
          rw hit (
            rw deps (ap (λ l. h.needed_node_ids ++ l) (sym (append_none (element_of x).node_refs))))
      | inr miss ↦ rw miss (sym (append_none h.needed_node_ids))
    ]

refs_of-append : (a b : List Element) → refs_of (a ++ b) ≡ refs_of a ++ refs_of b
refs_of-append [] b = refl
refs_of-append (e ∷ es) b =
    ap (λ l. e.node_refs ++ l) (refs_of-append es b)
    ∙ sym (append_assoc e.node_refs (refs_of es) (refs_of b))

pub scan-IsScanned : (f : Filter) (xs : List Entity) (h : Handler) → IsScanned f xs h (scan f xs h)
unfolding scan visit matched
scan-IsScanned f [] h = record {
  elements = sym (append_none h.elements);
  needed = λ d. sym (append_none h.needed_node_ids);
  total = omega arith;
}
scan-IsScanned f (x ∷ xs) h =
    let counted : Handler = record h { total_count = suc h.total_count } in
    let same = note_node-same f x counted in
    let noted = note_node f x counted in
    let later = scan-IsScanned f xs (collect f x noted) in
    record {
      elements =
          later.elements
          ∙ ap (λ l. l ++ matched f xs)
              (collect-elements f x noted ∙ ap (λ l. l ++ matched_one f x) same.0)
          ∙ append_assoc h.elements (matched_one f x) (matched f xs);
      needed = λ d.
          later.needed d
          ∙ ap (λ l. l ++ refs_of (matched f xs))
              (collect-needed f x noted d ∙ ap (λ l. l ++ refs_of (matched_one f x)) same.1)
          ∙ append_assoc h.needed_node_ids (refs_of (matched_one f x)) (refs_of (matched f xs))
          ∙ ap (λ l. h.needed_node_ids ++ l)
              (sym (refs_of-append (matched_one f x) (matched f xs)));
      total =
          (let t = later.total in
            let u = collect-total f x noted in let v = same.2 in omega (arith, t, u, v));
    }
