-- ===== src/Replication/Publish/Covered.antt =====
-- A region's stream has no hole between its extract and its head, and the writes keep that.
use fwh_osm.Prelude.{
  ℕ, suc, ◌≤◌, ◌<◌, true, none, some, [], refl, ◌≡◌, ◌≢◌, arith, ◌==◌, Bool-cases, inl, inr,
}
use fwh_osm.Prelude.Text.{Text, same_text_refl, NoBreak, splitlines, line_parts, drop_last_empty}
use fwh_osm.Replication.Sequence.{diff_name}
use fwh_osm.Replication.State.{format_state, parse_state, parse_lines}
use fwh_osm.Replication.State.Trip.{parse_state-format_sequence}
use fwh_osm.Replication.Disk.{
  Region, has_diff, move_diff, write_state, write_diff_state, region_state, extract_state,
}

-- Every diff behind the extract's data up to `n` is there.
pub record CoveredTo (n : ℕ) (d : Region) : Type 0 where
  pub at :
      (e s : ℕ)
      → (extract_state d).0 ≡ some e
      → e < s
      → s ≤ n
      → has_diff d.diffs (diff_name s) ≡ true

-- The region has a head, and what `state.txt` advertises is covered.
pub record IsCovered (d : Region) : Type 0 where
  pub anchored : (region_state d).0 ≢ none
  pub head : (h : ℕ) → (region_state d).0 ≡ some h → CoveredTo h d

-- An empty state file has no sequence number.
pub empty-sequence : (parse_state []).0 ≡ none
unfolding parse_state parse_lines splitlines line_parts drop_last_empty
empty-sequence = refl

-- What a consumer may rely on in any tree of a run that starts with the head `s`: no diff behind the
-- extract's data is missing up to `s`, nor up to a head that `state.txt` advertises; and only an
-- empty `state.txt` advertises none.
pub record IsTrusted (s : ℕ) (d : Region) : Type 0 where
  pub reach : CoveredTo s d
  pub head : (h : ℕ) → (region_state d).0 ≡ some h → CoveredTo h d
  pub emptied : (region_state d).0 ≡ none → d.state ≡ some []

pub IsCovered-IsTrusted : {s : ℕ} {d : Region} → CoveredTo s d → IsCovered d → IsTrusted s d
IsCovered-IsTrusted c h = record { reach = c; head = h.head; emptied = λ e. absurd (h.anchored e) }

pub CoveredTo-le : {n m : ℕ} {d : Region} → m ≤ n → CoveredTo n d → CoveredTo m d
CoveredTo-le h c = record { at = λ e s x lo hi. c.at e s x lo (omega arith) }

module _ (d : Region) where
  pub move_diff-IsCovered : (seq size : ℕ) → IsCovered d → IsCovered (move_diff seq size d)
  unfolding move_diff has_diff region_state extract_state
  move_diff-IsCovered seq size c = record {
    anchored = c.anchored;
    head = λ h x. record { at = λ e s y lo hi. ground (arith, (c.head h x).at e s y lo hi) };
  }

  pub move_diff-CoveredTo :
      (n size : ℕ) → CoveredTo n d → CoveredTo (suc n) (move_diff (suc n) size d)
  unfolding move_diff has_diff extract_state
  move_diff-CoveredTo n size c = record {
    at = λ e s x lo hi. elim (Bool-cases (s == suc n)) [
      | inl new ↦
          let e' : s ≡ suc n = ground arith in rw e' (rw (same_text_refl (diff_name (suc n))))
      | inr old ↦ ground (arith, c.at e s x lo (ground arith))
    ];
  }

  pub move_diff-keeps : (n seq size : ℕ) → CoveredTo n d → CoveredTo n (move_diff seq size d)
  unfolding move_diff has_diff extract_state
  move_diff-keeps n seq size c = record { at = λ e s x lo hi. ground (arith, c.at e s x lo hi) }

  -- The state is written behind its diff.
  pub write_state-IsCovered :
      (seq : ℕ) (ts : Text)
      → NoBreak ts
      → CoveredTo seq d
      → IsCovered (write_state (format_state seq ts) d)
  unfolding write_state region_state extract_state
  write_state-IsCovered seq ts nb c = record {
    anchored = λ x. ground (arith, parse_state-format_sequence seq ts nb);
    head = λ h x. record {
      at = λ e s y lo hi. c.at e s y lo (ground (arith, parse_state-format_sequence seq ts nb));
    };
  }

  pub write_state-keeps : (n : ℕ) (text : Text) → CoveredTo n d → CoveredTo n (write_state text d)
  unfolding write_state extract_state
  write_state-keeps n text c = record { at = c.at }

  pub write_diff_state-keeps :
      (n seq : ℕ) (text : Text) → CoveredTo n d → CoveredTo n (write_diff_state seq text d)
  unfolding write_diff_state extract_state
  write_diff_state-keeps n seq text c = record { at = c.at }

  pub write_diff_state-IsCovered :
      (seq : ℕ) (text : Text) → IsCovered d → IsCovered (write_diff_state seq text d)
  unfolding write_diff_state extract_state region_state
  write_diff_state-IsCovered seq text c = record {
    anchored = c.anchored;
    head = λ h x. record { at = (c.head h x).at };
  }

  -- Between the emptying and the writing.
  pub emptied-IsTrusted : (s : ℕ) → CoveredTo s d → IsTrusted s (write_state [] d)
  unfolding write_state region_state extract_state
  emptied-IsTrusted s c = record {
    reach = record { at = c.at };
    head = λ h x. absurd (ground (arith, empty-sequence));
    emptied = λ e. refl;
  }
