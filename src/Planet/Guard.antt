-- ===== src/Planet/Guard.antt =====
-- `maintain` never moves the served extracts backwards.
use fwh_osm.Prelude.{
  ℕ, ◌≤◌, String, true, Option, none, some, List, [], ◌∷◌, ◌≡◌, refl, ◌∙◌, ◌⊎◌, inl, inr, arith,
  Bool-cases, has_name, str_eq, str_eq_iff, ap,
}
use fwh_osm.Prelude.Result.{err, bootstrap_error}
use fwh_osm.Planet.{
  Server, Bootstrap, Files, Served, header_at, missing, unreadable, newer, see, published_from,
  published_sequence, may_extract, update_master, extract_from, maintain,
}

-- `s` is not above what is known.
abbrev IsBelow : ℕ → Option ℕ → Type 0
IsBelow s none = ⊥
IsBelow s (some b) = s ≤ b

newer-left : (s : ℕ) (best o : Option ℕ) → IsBelow s best → IsBelow s (newer best o)
newer-left s none o h = absurd h
newer-left s (some b) none h = h
newer-left s (some b) (some n) h = omega arith

newer-right : (s : ℕ) (best : Option ℕ) → IsBelow s (newer best (some s))
newer-right s none = omega arith
newer-right s (some b) = omega arith

see-IsBelow : (s : ℕ) (best : Option ℕ) (x : Served) → IsBelow s best → IsBelow s (see best x)
unfolding see
see-IsBelow s best missing h = h
see-IsBelow s best unreadable h = h
see-IsBelow s best (header_at seq) h = newer-left s best seq h

published_from-best :
    (served : String → Served) (rs : List String) (best : Option ℕ) (s : ℕ)
    → IsBelow s best
    → IsBelow s (published_from served best rs)
unfolding published_from
published_from-best served [] best s h = h
published_from-best served (r ∷ rs) best s h =
    published_from-best served rs (see best (served r)) s (see-IsBelow s best (served r) h)

published_from-IsBelow :
    (served : String → Served) (rs : List String) (best : Option ℕ) (q : String) (s : ℕ)
    → has_name q rs ≡ true
    → served q ≡ header_at (some s)
    → IsBelow s (published_from served best rs)
unfolding published_from
published_from-IsBelow served [] best q s m e = cc
published_from-IsBelow served (r ∷ rs) best q s m e = elim (Bool-cases (str_eq r q)) [
  | inl same ↦
      let here : served r ≡ header_at (some s) = ap served ((str_eq_iff r q).0 same) ∙ e in
      rw (here, published_from)
        (published_from-best served rs (newer best (some s)) s (newer-right s best))
  | inr other ↦ published_from-IsBelow served rs (see best (served r)) q s (ground arith) e
]

may_extract-IsBelow :
    (s : ℕ) (new o : Option ℕ)
    → may_extract new o ≡ true
    → IsBelow s o
    → (n : ℕ) × (new ≡ some n) × (s ≤ n)
unfolding may_extract
may_extract-IsBelow s new none e h = absurd h
may_extract-IsBelow s none (some p) e h = cc
may_extract-IsBelow s (some n) (some p) e h = (n, refl, ground arith)

-- Whatever the replication server does: if one of the regions is served with sequence number `s`,
-- a cycle re-extracts only from a master that is at `s` or later. Otherwise it raises, and the
-- served tree stays as it was.
pub maintain_never_backwards :
    (server : Server) (max_diff_mb : ℕ) (bootstrap : Bootstrap) (regions : List String)
    (files : Files) (served : String → Served) (q : String) (s : ℕ)
    → has_name q regions ≡ true
    → served q ≡ header_at (some s)
    → let (upd, files') = update_master server max_diff_mb files in
      ((n : ℕ) × (upd.new_sequence ≡ some n)
        × (s ≤ n)
        × (maintain server max_diff_mb bootstrap regions files served
            ≡ extract_from bootstrap upd files' served))
      ⊎ (maintain server max_diff_mb bootstrap regions files served
          ≡ (err bootstrap_error, files', served))
unfolding maintain published_sequence
maintain_never_backwards server max_diff_mb bootstrap regions files served q s named e =
    let (upd, files') = update_master server max_diff_mb files in
    elim (Bool-cases (may_extract upd.new_sequence (published_sequence served regions))) [
      | inl may ↦
          let (n, new, above) =
            may_extract-IsBelow s upd.new_sequence (published_sequence served regions) may
              (published_from-IsBelow served regions none q s named e) in
          inl (n, new, above, rw may refl)
      | inr refused ↦ inr (rw refused refl)
    ]
