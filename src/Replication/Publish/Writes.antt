-- ===== src/Replication/Publish/Writes.antt =====
-- What the writes and the marks of one call of `publish` do to one region `q`.
use fwh_osm.Prelude.{
  ℕ, suc, String, Bool, true, false, List, [], ◌∷◌, ◌≡◌, refl, ◌∙◌, arith, All, max, leb, str_eq,
  Bool-cases, inl, inr, if◌then◌else◌,
}
use fwh_osm.Prelude.Text.{Text, NoBreak}
use fwh_osm.Replication.State.{format_state}
use fwh_osm.Replication.Disk.{Disk, Region, move_diff, write_state, write_diff_state}
use fwh_osm.Replication.Publish.Run.{Run, Reason, visited, mark, land, mark_missing, no_polygon}
use fwh_osm.Replication.Publish.Covered.{
  CoveredTo, IsCovered, IsTrusted, IsCovered-IsTrusted, CoveredTo-le, emptied-IsTrusted,
  move_diff-IsCovered, move_diff-CoveredTo, move_diff-keeps, write_state-IsCovered,
  write_state-keeps, write_diff_state-keeps, write_diff_state-IsCovered,
}

move_diff-max :
    (d : Region) (s n size : ℕ)
    → CoveredTo (max s n) d
    → CoveredTo (max s (suc n)) (move_diff (suc n) size d)
move_diff-max d s n size c = elim (Bool-cases (leb (suc n) s)) [
  | inl low ↦ CoveredTo-le {n = max s n} (ground arith) (move_diff-keeps d (max s n) (suc n) size c)
  | inr high ↦
      CoveredTo-le {n = suc n} (ground arith)
        (move_diff-CoveredTo d n size (CoveredTo-le {n = max s n} (omega arith) c))
]

module _ (q : String) where
  -- The last tree has a stream of `q` with a head and no hole, and all of them can be trusted.
  abbrev pub AreSeen : ℕ → List Disk → Type 0
  AreSeen s [] = Unit
  AreSeen s (disk ∷ disks) =
      IsCovered (disk q) × All (λ (tree : Disk). IsTrusted s (tree q)) (disk ∷ disks)

  abbrev pub Seen : ℕ → Run → Type 0
  Seen s run = AreSeen s (visited run)

  abbrev pub is_skipped : Run → Bool
  is_skipped run = (run.per_region q).skipped

  pub land-Seen :
      (s n size : ℕ) (ts : Text) (r : String) (run : Run)
      → NoBreak ts
      → (str_eq r q ≡ true → CoveredTo n (run.disk q))
      → Seen s run
      → Seen s (land (suc n) ts size r run)
  unfolding land
  land-Seen s n size ts r run nb c (covered, (trusted, before)) = elim (Bool-cases (str_eq r q)) [
    | inr other ↦
        rw other (covered, (trusted, (trusted, (trusted, (trusted, (trusted, (trusted, before)))))))
    | inl same ↦
        let text = format_state (suc n) ts in
        let d0 = move_diff (suc n) size (run.disk q) in
        let d1 = write_state [] d0 in
        let d2 = write_state text d1 in
        let d3 = write_diff_state (suc n) [] d2 in
        let d4 = write_diff_state (suc n) text d3 in
        let c0 = move_diff-IsCovered (run.disk q) (suc n) size covered in
        let r0 = move_diff-keeps (run.disk q) s (suc n) size trusted.reach in
        let r2 = write_state-keeps d1 s text (write_state-keeps d0 s [] r0) in
        let c2 =
          write_state-IsCovered d1 (suc n) ts nb
            (write_state-keeps d0 (suc n) [] (move_diff-CoveredTo (run.disk q) n size (c same))) in
        let r3 = write_diff_state-keeps d2 s (suc n) [] r2 in
        let c3 = write_diff_state-IsCovered d2 (suc n) [] c2 in
        let c4 = write_diff_state-IsCovered d3 (suc n) text c3 in
        rw same (
          c4,
          (
            IsCovered-IsTrusted (write_diff_state-keeps d3 s (suc n) text r3) c4,
            (
              IsCovered-IsTrusted r3 c3,
              (
                IsCovered-IsTrusted r2 c2,
                (emptied-IsTrusted d0 s r0, (IsCovered-IsTrusted r0 c0, (trusted, before))),
              ),
            ),
          ),
        )
  ]

  pub land-reach :
      (s n size : ℕ) (ts : Text) (r : String) (run : Run)
      → str_eq r q ≡ true
      → CoveredTo (max s n) (run.disk q)
      → CoveredTo (max s (suc n)) ((land (suc n) ts size r run).disk q)
  unfolding land
  land-reach s n size ts r run same c =
      let top = max s (suc n) in
      rw same (
        write_diff_state-keeps _ top (suc n) (format_state (suc n) ts) (
          write_diff_state-keeps _ top (suc n) [] (
            write_state-keeps _ top (format_state (suc n) ts)
              (write_state-keeps _ top [] (move_diff-max (run.disk q) s n size c)))))

  pub land-other :
      (seq size : ℕ) (ts : Text) (r : String) (run : Run)
      → str_eq r q ≡ false
      → (land seq ts size r run).disk q ≡ run.disk q
  unfolding land
  land-other seq size ts r run other = rw other

  pub land-is_skipped :
      (seq size : ℕ) (ts : Text) (r : String) (run : Run)
      → is_skipped (land seq ts size r run) ≡ is_skipped run
  unfolding land
  land-is_skipped seq size ts r run = ground arith

  pub mark-is_skipped :
      (r : String) (why : Reason) (run : Run)
      → is_skipped (mark r why run) ≡ (if str_eq r q then true else is_skipped run)
  unfolding mark
  mark-is_skipped r why run = ground arith

  pub mark_missing-trees :
      (polys : String → Bool) (rs : List String) (run : Run)
      → visited (mark_missing polys rs run) ≡ visited run
  unfolding mark_missing
  mark_missing-trees polys [] run = refl
  mark_missing-trees polys (r ∷ rs) run =
      mark_missing-trees polys rs (if polys r then run else mark r no_polygon run) ∙ same (polys r)
    where
      same : (b : Bool) → visited (if b then run else mark r no_polygon run) ≡ visited run
      same true = refl
      same false = unfold mark in refl

  -- A region that is not skipped afterwards was not skipped before.
  pub mark_missing-is_skipped :
      (polys : String → Bool) (rs : List String) (run : Run)
      → is_skipped (mark_missing polys rs run) ≡ false
      → is_skipped run ≡ false
  unfolding mark_missing
  mark_missing-is_skipped polys [] run h = h
  mark_missing-is_skipped polys (r ∷ rs) run h = ground (
    arith,
    mark-is_skipped r no_polygon run,
    mark_missing-is_skipped polys rs run,
    mark_missing-is_skipped polys rs (mark r no_polygon run),
  )
