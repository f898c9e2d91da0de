-- ===== src/Roads/Selection/Corridors/Forest.antt =====
-- The forest of parents: every path leads to a root within the bound.
use fwh_osm.Prelude.{
  ℕ, zero, suc, ◌+◌, ◌≤◌, ◌<◌, ◌≡◌, ◌≢◌, refl, some, List, [], ◌∷◌, arith, if◌then◌else◌, ◌==◌,
  length, All, Option-cases, Bool-cases, inl, inr,
}
use fwh_osm.Prelude.Table.{find, put, find-put}
use fwh_osm.Roads.Graph.{LogicalEdge, RoadGraph}
use fwh_osm.Roads.Selection.Corridors.{Forest, find_root, set_default, unite, unite_all}

-- A step to a parent lowers the height, and heights stay within the bound.
pub record IsForest (height : ℕ → ℕ) (bound : ℕ) (parent : Forest) : Type 0 where
  pub lowers : (a p : ℕ) → find a parent ≡ some p → p ≢ a → height p < height a
  pub closed : (a p : ℕ) → find a parent ≡ some p → (q : ℕ) × (find p parent ≡ some q)
  pub bounded : (a : ℕ) → height a ≤ bound

abbrev pub Keeps : Forest → Forest → Type 0
Keeps parent parent' = (a p : ℕ) → find a parent ≡ some p → (q : ℕ) × (find a parent' ≡ some q)

still_known :
    (a b q c : ℕ) (parent : Forest)
    → find b parent ≡ some c
    → (x : ℕ) × (find b (put a q parent) ≡ some x)
still_known a b q c parent k = elim (Bool-cases (a == b)) [
  | inl same ↦ (q, ground (arith, find-put a b q parent))
  | inr other ↦ (c, ground (arith, find-put a b q parent))
]

halve :
    (height : ℕ → ℕ) (bound : ℕ) (parent : Forest) (a p q : ℕ)
    → IsForest height bound parent
    → find a parent ≡ some p
    → p ≢ a
    → find p parent ≡ some q
    → IsForest height bound (put a q parent) × (height q < height a)
halve height bound parent a p q h at apart at_p =
    let less : height q < height a = elim (Bool-cases (q == p)) [
      | inl root ↦ let e : q ≡ p = ground arith in rw e (h.lowers a p at apart)
      | inr above ↦ omega (arith, h.lowers a p at apart, h.lowers p q at_p (λ e. ground arith))
    ] in
    (
      record {
        lowers = λ b r at_b other. ground (arith, find-put a b q parent, h.lowers b r);
        closed = λ b r at_b. elim (Bool-cases (a == r)) [
          | inl same ↦ (q, ground (arith, find-put a r q parent))
          | inr other ↦ elim (Bool-cases (a == b)) [
            | inl own ↦
                let e : q ≡ r = ground (arith, find-put a b q parent) in
                let (s, k) = h.closed p q at_p in
                let (x, there) = still_known a q q s parent k in
                let moved : find r (put a q parent) ≡ some x = rw (← e) there in (x, moved)
            | inr others ↦
                let (s, k) = h.closed b r (ground (arith, find-put a b q parent)) in
                (s, ground (arith, find-put a r q parent))
          ]
        ];
        bounded = h.bounded;
      },
      less,
    )

-- What `find_root` returns.
pub record IsRootOf (height : ℕ → ℕ) (bound root : ℕ) (parent parent' : Forest) : Type 0 where
  pub forest : IsForest height bound parent'
  pub is_root : find root parent' ≡ some root
  pub keeps : Keeps parent parent'
  pub roots : (r : ℕ) → find r parent ≡ some r → find r parent' ≡ some r

pub find_root-IsRootOf :
    (height : ℕ → ℕ) (bound fuel a p : ℕ) (parent : Forest)
    → IsForest height bound parent
    → find a parent ≡ some p
    → height a < fuel
    → (root : ℕ) × (parent' : Forest) × (find_root fuel a parent ≡ some (root, parent'))
      × IsRootOf height bound root parent parent'
unfolding find_root
find_root-IsRootOf height bound zero a p parent h at less = absurd (omega arith)
find_root-IsRootOf height bound (suc fuel) a p parent h at less = elim (Bool-cases (p == a)) [
  | inl root ↦ (
    a,
    parent,
    rw (find_root, at, root) refl,
    record { forest = h; is_root = ground arith; keeps = λ b q k. (q, k); roots = λ r k. k },
  )
  | inr above ↦
      let (q, at_p) = h.closed a p at in
      let (h', lower) = halve height bound parent a p q h at (λ e. ground arith) at_p in
      let (s, at_q) = h.closed p q at_p in
      let (o, at_q') = still_known a q q s parent at_q in
      let (root, parent', runs, r) =
        find_root-IsRootOf height bound fuel q o (put a q parent) h' at_q' (omega arith) in
      (
        root,
        parent',
        rw (find_root, at, above, at_p) runs,
        record {
          forest = r.forest;
          is_root = r.is_root;
          keeps = λ b c k. let (x, at_x) = still_known a b q c parent k in r.keeps b x at_x;
          roots = λ b k. r.roots b (ground (arith, find-put a b q parent));
        },
      )
]

set_default-IsForest :
    (height : ℕ → ℕ) (bound n : ℕ) (parent : Forest)
    → IsForest height bound parent
    → IsForest height bound (set_default n parent)
      × Keeps parent (set_default n parent)
      × ((q : ℕ) × (find n (set_default n parent) ≡ some q))
unfolding set_default
set_default-IsForest height bound n parent h = elim (Option-cases (find n parent)) [
  | inr (p, known) ↦ rw (set_default, known) (h, λ a q k. (q, k), (p, known))
  | inl fresh ↦
      rw (set_default, fresh)
        (
          record {
            lowers = λ a p at other. ground (arith, find-put n a n parent, h.lowers a p);
            closed = λ a p at. elim (Bool-cases (n == p)) [
              | inl same ↦ (n, ground (arith, find-put n p n parent))
              | inr other ↦
                  let (q, k) = h.closed a p (ground (arith, find-put n a n parent)) in
                  (q, ground (arith, find-put n p n parent))
            ];
            bounded = h.bounded;
          },
          λ a p k. still_known n a n p parent k,
          (n, ground (arith, find-put n n n parent)),
        )
]

-- One root under another.
link :
    (height : ℕ → ℕ) (bound ra rb : ℕ) (parent : Forest)
    → IsForest height bound parent
    → find rb parent ≡ some rb
    → ra ≢ rb
    → IsForest (λ n. if n == rb then 0 else suc (height n)) (suc bound) (put ra rb parent)
link height bound ra rb parent h root apart = record {
  lowers = λ a p at other. ground (arith, find-put ra a rb parent, h.lowers a p);
  closed = λ a p at. elim (Bool-cases (ra == p)) [
    | inl same ↦ (rb, ground (arith, find-put ra p rb parent))
    | inr other ↦ elim (Bool-cases (ra == a)) [
      | inl own ↦ (rb, ground (arith, find-put ra a rb parent, find-put ra p rb parent))
      | inr others ↦
          let (q, k) = h.closed a p (ground (arith, find-put ra a rb parent)) in
          (q, ground (arith, find-put ra p rb parent))
    ]
  ];
  bounded = λ a. ground (arith, h.bounded a);
}

Keeps-trans : (p1 p2 p3 : Forest) → Keeps p1 p2 → Keeps p2 p3 → Keeps p1 p3
Keeps-trans p1 p2 p3 f h a p k = let (q, at) = f a p k in h a q at

-- What `unite` changes: a forest of one more step, with both ends in it.
pub record IsUnited (bound : ℕ) (e : LogicalEdge) (parent parent' : Forest) : Type 0 where
  pub height : ℕ → ℕ
  pub forest : IsForest height (suc bound) parent'
  pub keeps : Keeps parent parent'
  pub start : (q : ℕ) × (find e.from_node parent' ≡ some q)

raise :
    (height : ℕ → ℕ) (bound : ℕ) (parent : Forest)
    → IsForest height bound parent
    → IsForest height (suc bound) parent
raise height bound parent h = record {
  lowers = h.lowers;
  closed = h.closed;
  bounded = λ a. omega (arith, h.bounded a);
}

pub unite-IsUnited :
    (height : ℕ → ℕ) (bound fuel : ℕ) (e : LogicalEdge) (parent : Forest)
    → IsForest height bound parent
    → bound < fuel
    → (parent' : Forest) × (unite fuel e parent ≡ some parent') × IsUnited bound e parent parent'
unfolding unite
unite-IsUnited height bound fuel e parent h enough =
    let (h1, k1, (q1, at1)) = set_default-IsForest height bound e.from_node parent h in
    let p1 = set_default e.from_node parent in
    let (h2, k2, (q2, at2)) = set_default-IsForest height bound e.to_node p1 h1 in
    let p2 = set_default e.to_node p1 in
    let (q3, at3) = k2 e.from_node q1 at1 in
    let (ra, p3, runs_a, a) =
      find_root-IsRootOf height bound fuel e.from_node q3 p2 h2 at3
        (omega (arith, h2.bounded e.from_node)) in
    let (q4, at4) = a.keeps e.to_node q2 at2 in
    let (rb, p4, runs_b, b) =
      find_root-IsRootOf height bound fuel e.to_node q4 p3 a.forest at4
        (omega (arith, h2.bounded e.to_node)) in
    let kept =
      Keeps-trans parent p1 p4 k1
        (Keeps-trans p1 p2 p4 k2 (Keeps-trans p2 p3 p4 a.keeps b.keeps)) in
    let (q5, at5) = Keeps-trans p2 p3 p4 a.keeps b.keeps e.from_node q3 at3 in
    elim (Bool-cases (ra == rb)) [
      | inl same ↦ (
        p4,
        rw (unite, runs_a, runs_b, same) refl,
        record {
          height = height;
          forest = raise height bound p4 b.forest;
          keeps = kept;
          start = (q5, at5);
        },
      )
      | inr other ↦ (
        put ra rb p4,
        rw (unite, runs_a, runs_b, other) refl,
        record {
          height = λ n. if n == rb then 0 else suc (height n);
          forest = link height bound ra rb p4 b.forest b.is_root (λ eq. ground arith);
          keeps = λ c p k. let (x, at) = kept c p k in still_known ra c rb x p4 at;
          start = still_known ra e.from_node rb q5 p4 at5;
        },
      )
    ]

-- The forest of all edges of a list that are stored.
pub record IsGrown (g : RoadGraph) (bound : ℕ) (eids : List ℕ) (parent parent' : Forest)
    : Type 0 where
  pub height : ℕ → ℕ
  pub forest : IsForest height (bound + length eids) parent'
  pub keeps : Keeps parent parent'
  pub starts :
      All
        (λ eid.
          (e : LogicalEdge) × (find eid g.edge_by_id ≡ some e)
          × ((q : ℕ) × (find e.from_node parent' ≡ some q)))
        eids

pub unite_all-IsGrown :
    (g : RoadGraph) (height : ℕ → ℕ) (bound fuel : ℕ) (eids : List ℕ) (parent : Forest)
    → All (λ eid. (e : LogicalEdge) × (find eid g.edge_by_id ≡ some e)) eids
    → IsForest height bound parent
    → bound + length eids < fuel
    → (parent' : Forest) × (unite_all fuel g eids parent ≡ some parent')
      × IsGrown g bound eids parent parent'
unfolding unite_all
unite_all-IsGrown g height bound fuel [] parent stored h enough = (
  parent,
  refl,
  record {
    height = height;
    forest = record {
      lowers = h.lowers;
      closed = h.closed;
      bounded = λ a. omega (arith, h.bounded a);
    };
    keeps = λ a p k. (p, k);
    starts = tt;
  },
)
unite_all-IsGrown g height bound fuel (eid ∷ eids) parent ((e, at), stored) h enough =
    let (p1, runs, u) = unite-IsUnited height bound fuel e parent h (omega arith) in
    let (p2, goes, r) =
      unite_all-IsGrown g u.height (suc bound) fuel eids p1 stored u.forest (omega arith) in
    (
      p2,
      rw (unite_all, at, runs) goes,
      record {
        height = r.height;
        forest = record {
          lowers = r.forest.lowers;
          closed = r.forest.closed;
          bounded = λ a. omega (arith, r.forest.bounded a);
        };
        keeps = Keeps-trans parent p1 p2 u.keeps r.keeps;
        starts = ((e, at, let (q, k) = u.start in r.keeps e.from_node q k), r.starts);
      },
    )

root_stays :
    (a b : ℕ) (parent : Forest) → find b parent ≡ some b → find b (set_default a parent) ≡ some b
unfolding set_default
root_stays a b parent k = elim (Option-cases (find a parent)) [
  | inl fresh ↦ rw (set_default, fresh) (ground (arith, find-put a b a parent))
  | inr (q, known) ↦ rw (set_default, known) k
]

-- `_uf_find` in a forest: the node is entered, and its root found.
pub uf_find-IsRootOf :
    (height : ℕ → ℕ) (bound fuel a : ℕ) (parent : Forest)
    → IsForest height bound parent
    → bound < fuel
    → (root : ℕ) × (parent' : Forest) × (find_root fuel a (set_default a parent)
        ≡ some (root, parent'))
      × IsRootOf height bound root parent parent'
      × ((q : ℕ) × (find a parent' ≡ some q))
uf_find-IsRootOf height bound fuel a parent h enough =
    let (h1, k1, (q, at)) = set_default-IsForest height bound a parent h in
    let p1 = set_default a parent in
    let (root, p2, runs, r) =
      find_root-IsRootOf height bound fuel a q p1 h1 at (omega (arith, h1.bounded a)) in
    (
      root,
      p2,
      runs,
      record {
        forest = r.forest;
        is_root = r.is_root;
        keeps = Keeps-trans parent p1 p2 k1 r.keeps;
        roots = λ b k. r.roots b (root_stays a b parent k);
      },
      r.keeps a q at,
    )

-- A root under another, or under itself.
pub relink :
    (height : ℕ → ℕ) (bound ra rb : ℕ) (parent : Forest)
    → IsForest height bound parent
    → find rb parent ≡ some rb
    → (height' : ℕ → ℕ) × IsForest height' (suc bound) (put ra rb parent)
relink height bound ra rb parent h root = elim (Bool-cases (ra == rb)) [
  | inr other ↦ (_, link height bound ra rb parent h root (λ e. ground arith))
  | inl same ↦ (
    height,
    record {
      lowers = λ a p at apart. ground (arith, find-put ra a rb parent, h.lowers a p);
      closed = λ a p at. elim (Bool-cases (ra == p)) [
        | inl mine ↦ (rb, ground (arith, find-put ra p rb parent))
        | inr others ↦
            let known : find a parent ≡ some p = ground (arith, find-put ra a rb parent) in
            let (q, k) = h.closed a p known in (q, ground (arith, find-put ra p rb parent))
      ];
      bounded = λ a. omega (arith, h.bounded a);
    },
  )
]

-- Before the first union there is no parent.
pub empty-IsForest : IsForest (λ n. 0) 0 []
unfolding find
empty-IsForest = record {
  lowers = λ a p at other. absurd (ground arith);
  closed = λ a p at. absurd (ground arith);
  bounded = λ a. omega arith;
}
