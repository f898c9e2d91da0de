-- ===== src/Tests/Planet.antt =====
-- Tests of planet_maintain.py's model.
use fwh_osm.Prelude.{ℕ, ◌≤◌, String, none, some, [], ◌∷◌, ◌≡◌, ◌⊎◌, refl}
use fwh_osm.Prelude.Result.{ok, err, bootstrap_error}
use fwh_osm.Prelude.Text.{codes}
use fwh_osm.Planet
use fwh_osm.Planet.{
  Server, Bootstrap, Files, Master, Served, header_at, at, applied, pair, update_master,
  extract_from, maintain,
}
use fwh_osm.Planet.Guard.{maintain_never_backwards}
use fwh_osm.Planet.Advance.{IsIdle, IsAdvanced, update_master_contract}

-- The master of 2026-08-23: at 5051 while the extracts were at 5090, behind a server that is down.
abbrev stale : Files
stale = record {
  master = record { header = record { url = codes "u"; sequence = some 5051 }; bytes = 1 };
  tmp = none;
}

abbrev down : Server
down = record { probe = Planet.raised; apply_diffs = λ m seq kb. Planet.nothing }

abbrev served : String → Served
served r = header_at (some 5090)

abbrev split : Bootstrap
split m tree = (ok tt, λ r. header_at m.header.sequence)

maintain-stale :
    maintain down 1024 split ("africa" ∷ []) stale served ≡ (err bootstrap_error, stale, served)
unfolding maintain update_master
maintain-stale = refl

maintain_never_backwards_example :
    let (upd, files') = update_master down 1024 stale in
    ((n : ℕ) × (upd.new_sequence ≡ some n)
      × (5090 ≤ n)
      × (maintain down 1024 split ("africa" ∷ []) stale served
          ≡ extract_from split upd files' served))
    ⊎ (maintain down 1024 split ("africa" ∷ []) stale served
        ≡ (err bootstrap_error, files', served))
maintain_never_backwards_example =
    maintain_never_backwards down 1024 split ("africa" ∷ []) stale served "africa" 5090 refl refl

abbrev ahead : Server
ahead = record {
  probe = at 5091;
  apply_diffs = λ m seq kb.
      applied (pair 5091 [])
        (record { header = record { url = codes "u"; sequence = some 5091 }; bytes = 2 });
}

update_master_contract_example :
    IsIdle stale (update_master ahead 1024 stale)
    ⊎ IsAdvanced ahead 1024 stale (update_master ahead 1024 stale)
update_master_contract_example = update_master_contract ahead 1024 stale
