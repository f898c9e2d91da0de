-- ===== src/OsmFilter/Collector.antt =====
-- The second pass: what `NodeCollector` knows of the nodes that it was asked for.
use fwh_osm.Prelude.{
  ℕ, true, false, Option, none, some, List, [], ◌∷◌, ◌≡◌, inl, inr, refl, ◌∙◌, ap, arith,
  if◌then◌else◌, ◌==◌, ==_iff, Bool-cases,
}
use fwh_osm.OsmFilter.Elements.{Location, Coords, put, coords_of}
use fwh_osm.OsmFilter.Scan.{Entity, node, way, relation, is_needed, collect_node, collect_nodes}
use fwh_osm.OsmFilter.Direct.{or_else, node_at}

coords_of-put :
    (k n : ℕ) (at : Location) (c : Coords)
    → coords_of k (put n at c) ≡ (if k == n then some at else coords_of k c)
unfolding put coords_of
coords_of-put k n at [] = refl
coords_of-put k n at ((m, old) ∷ rest) = ground (arith, coords_of-put k n at rest)

or_else_assoc : (a b c : Option Location) → or_else a (or_else b c) ≡ or_else (or_else a b) c
or_else_assoc none b c = refl
or_else_assoc (some a) b c = refl

pub or_else-none : (a : Option Location) → or_else a none ≡ a
or_else-none none = refl
or_else-none (some a) = refl

-- What the collector knows of a node.
pub collect_nodes-needed :
    (needed : List ℕ) (k : ℕ) (xs : List Entity) (c : Coords)
    → is_needed k needed ≡ true
    → coords_of k (collect_nodes needed xs c) ≡ or_else (node_at k xs) (coords_of k c)
unfolding collect_nodes collect_node node_at
collect_nodes-needed needed k [] c h = refl
collect_nodes-needed needed k (node id tags at ∷ xs) c h = elim (Bool-cases (is_needed id needed)) [
  | inl wanted ↦ rw wanted (
      collect_nodes-needed needed k xs (put id at c) h
      ∙ ap (or_else (node_at k xs)) (coords_of-put k id at c ∙ split_test k id at (coords_of k c))
      ∙ or_else_assoc (node_at k xs) (if k == id then some at else none) (coords_of k c))
  | inr other ↦
      let apart : (k == id) ≡ false = differ k id needed h other in
      rw other (rw apart (rw (or_else-none (node_at k xs)) (collect_nodes-needed needed k xs c h)))
]
  where
    split_test :
        (k id : ℕ) (at : Location) (o : Option Location)
        → (if k == id then some at else o) ≡ or_else (if k == id then some at else none) o
    split_test k id at o = ground arith

    differ :
        (k id : ℕ) (needed : List ℕ)
        → is_needed k needed ≡ true
        → is_needed id needed ≡ false
        → (k == id) ≡ false
    differ k id needed h other = elim (Bool-cases (k == id)) [
      | inl same ↦ let e = (==_iff k id).0 same in absurd (ground (arith, h, other, e))
      | inr d ↦ d
    ]
collect_nodes-needed needed k (way id tags refs ∷ xs) c h = collect_nodes-needed needed k xs c h
collect_nodes-needed needed k (relation id tags members ∷ xs) c h =
    collect_nodes-needed needed k xs c h
