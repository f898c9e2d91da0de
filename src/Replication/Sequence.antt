-- ===== src/Replication/Sequence.antt =====
-- `sequence_path` of replication_publish.py, and the number that `missing_diffs` reads back from
-- the names of a path's three parts.
use fwh_osm.Prelude.{ℕ, ◌^◌, ◌<◌, ◌≡◌, refl, ◌∙◌, ◌++◌, ◌∷◌, [], take, drop, arith, length}
use fwh_osm.Prelude.Int.{ℤ, pos, negsuc}
use fwh_osm.Prelude.Result.{Result, ok, err, value_error}
use fwh_osm.Prelude.Text.{Text, codes, zfill, value, length-zfill, value-zfill}

abbrev slash : Text
slash = codes "/"

-- `f"{p[0:3]}/{p[3:6]}/{p[6:9]}"`
unfoldable pub triplets : Text → Text
triplets p = take 3 p ++ (slash ++ (take 3 (drop 3 p) ++ (slash ++ take 3 (drop 6 p))))

-- The path of a sequence number that is not negative.
unfoldable pub diff_name : ℕ → Text
unfolding triplets
diff_name n = triplets (zfill 9 n)

unfoldable pub sequence_path : ℤ → Result Text
unfolding diff_name
sequence_path (negsuc n) = err value_error
sequence_path (pos n) = ok (diff_name n)

-- `int(a + b + f.name[:3])` of `missing_diffs`, where the path is `a/b/f.name`.
unfoldable pub path_sequence : Text → ℕ
path_sequence s = value (take 3 s ++ (take 3 (drop 4 s) ++ take 3 (drop 8 s)))

-- A text of nine characters is put together again from its three parts.
nine-parts : (p : Text) → length p ≡ 9 → path_sequence (triplets p) ≡ value p
unfolding path_sequence triplets
nine-parts (a ∷ b ∷ c ∷ d ∷ e ∷ f ∷ g ∷ h ∷ i ∷ []) l = refl
nine-parts _ l = absurd (omega arith)

path_sequence-diff_name : (n : ℕ) → n < 10 ^ 9 → path_sequence (diff_name n) ≡ n
unfolding diff_name
path_sequence-diff_name n h = nine-parts (zfill 9 n) (length-zfill 8 n h) ∙ value-zfill 9 n

-- The number that `missing_diffs` reads from a path is the one that `sequence_path` wrote there,
-- for every sequence number of at most nine digits, and no such number is refused.
pub sequence_path_round_trip :
    (n : ℕ)
    → n < 10 ^ 9
    → (path : Text) × (sequence_path (pos n) ≡ ok path) × (path_sequence path ≡ n)
unfolding sequence_path
sequence_path_round_trip n h = (diff_name n, refl, path_sequence-diff_name n h)
