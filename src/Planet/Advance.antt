-- ===== src/Planet/Advance.antt =====
-- What `update_master` reports, and what it leaves of the master.
use fwh_osm.Prelude.{
  ℕ, suc, ◌*◌, ◌<◌, true, false, Option, none, some, ◌≡◌, ◌≢◌, refl, sym, arith, Bool-cases, inl,
  inr, ◌⊎◌, leb, is_empty,
}
use fwh_osm.Planet.{
  Server, Files, Master, MasterUpdate, NewSequence, Applied, failed, nothing, applied, updated,
  Probe, raised, no_state, at, first_of_pair, take_diffs, follow, from_header, update_master,
  kb_per_mb,
}

-- The master and the report, where nothing was taken.
pub record IsIdle (files : Files) (r : MasterUpdate × Files) : Type 0 where
  pub not_advanced : r.0.advanced ≡ false
  pub not_updated : r.0.status ≢ updated
  pub old : r.0.old_sequence ≡ files.master.header.sequence
  pub new : r.0.new_sequence ≡ files.master.header.sequence
  pub same_master : r.1.master ≡ files.master

-- The master was replaced by what the server made of it, from the next sequence number on.
pub record IsAdvanced (server : Server) (max_diff_mb : ℕ) (files : Files) (r : MasterUpdate × Files)
    : Type 0 where
  pub seq : ℕ
  pub latest : ℕ
  pub new_seq : NewSequence
  pub file : Master
  pub had : files.master.header.sequence ≡ some seq
  pub server_at : server.probe ≡ at latest
  pub ahead : seq < latest
  pub made :
      server.apply_diffs files.master (suc seq) (max_diff_mb * kb_per_mb) ≡ applied new_seq file
  pub report : r.0 ≡ record {
    old_sequence = some seq;
    new_sequence = some (first_of_pair new_seq);
    status = updated;
    advanced = true;
  }
  pub replaced : r.1 ≡ record { master = file; tmp = none }

take_diffs-cases :
    (server : Server) (max_diff_mb seq latest : ℕ) (a : Applied) (files : Files)
    → files.master.header.sequence ≡ some seq
    → server.probe ≡ at latest
    → seq < latest
    → server.apply_diffs files.master (suc seq) (max_diff_mb * kb_per_mb) ≡ a
    → IsIdle files (take_diffs seq a files)
      ⊎ IsAdvanced server max_diff_mb files (take_diffs seq a files)
unfolding take_diffs
take_diffs-cases server max_diff_mb seq latest failed files had probe ahead made = inl (record {
  not_advanced = refl;
  not_updated = λ e. cc;
  old = sym had;
  new = sym had;
  same_master = refl;
})
take_diffs-cases server max_diff_mb seq latest nothing files had probe ahead made = inl (record {
  not_advanced = refl;
  not_updated = λ e. cc;
  old = sym had;
  new = sym had;
  same_master = refl;
})
take_diffs-cases server max_diff_mb seq latest (applied n f) files had probe ahead made =
    inr (record {
      seq = seq;
      latest = latest;
      new_seq = n;
      file = f;
      had = had;
      server_at = probe;
      ahead = ahead;
      made = made;
      report = refl;
      replaced = refl;
    })

follow-cases :
    (server : Server) (max_diff_mb seq : ℕ) (p : Probe) (files : Files)
    → files.master.header.sequence ≡ some seq
    → server.probe ≡ p
    → IsIdle files (follow server max_diff_mb seq p files)
      ⊎ IsAdvanced server max_diff_mb files (follow server max_diff_mb seq p files)
unfolding follow
follow-cases server max_diff_mb seq raised files had probe = inl (record {
  not_advanced = refl;
  not_updated = λ e. cc;
  old = sym had;
  new = sym had;
  same_master = refl;
})
follow-cases server max_diff_mb seq no_state files had probe = inl (record {
  not_advanced = refl;
  not_updated = λ e. cc;
  old = sym had;
  new = sym had;
  same_master = refl;
})
follow-cases server max_diff_mb seq (at latest) files had probe =
    elim (Bool-cases (leb latest seq)) [
      | inl current ↦ rw current (
          inl (record {
            not_advanced = refl;
            not_updated = λ e. cc;
            old = sym had;
            new = sym had;
            same_master = refl;
          }))
      | inr behind ↦
          rw behind
            (take_diffs-cases server max_diff_mb seq latest _ files had probe (ground arith) refl)
    ]

-- A call of `update_master` does one of two things. Either it reports no advance: then the two
-- sequence numbers that it reports are the one in the master's header, and the master is not
-- touched, whether the host is down, the diffs fail, or there is nothing new. Or it reports the
-- advance of a master that the server was ahead of, and the master is the file that the server
-- made of it from the next sequence number on.
pub update_master_contract :
    (server : Server) (max_diff_mb : ℕ) (files : Files)
    → IsIdle files (update_master server max_diff_mb files)
      ⊎ IsAdvanced server max_diff_mb files (update_master server max_diff_mb files)
unfolding update_master
update_master_contract server max_diff_mb files =
    elim (Bool-cases (is_empty files.master.header.url)) [
      | inl no_url ↦ rw no_url (
          inl (record {
            not_advanced = refl;
            not_updated = λ e. cc;
            old = refl;
            new = refl;
            same_master = refl;
          }))
      | inr url ↦ rw url (with_header files.master.header.sequence refl)
    ]
  where
    with_header :
        (o : Option ℕ)
        → files.master.header.sequence ≡ o
        → IsIdle files (from_header server max_diff_mb o files)
          ⊎ IsAdvanced server max_diff_mb files (from_header server max_diff_mb o files)
    with_header none e = inl (record {
      not_advanced = refl;
      not_updated = λ x. cc;
      old = sym e;
      new = sym e;
      same_master = refl;
    })
    with_header (some seq) e = follow-cases server max_diff_mb seq server.probe files e refl
