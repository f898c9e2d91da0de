-- ===== src/Queries/Words.antt =====
-- `split()`, `" ".join(…)` and `sorted(…)` on texts, as `normalise` of tools/_osm_tools/tag_query.py
-- uses them.
use fwh_osm.Prelude.{
  ℕ, ◌≡◌, refl, ◌∙◌, inl, inr, Bool, true, false, ◌&&◌, ◌||◌, List, [], ◌∷◌, ◌++◌, arith,
  if◌then◌else◌, ltb, ◌==◌, is_empty, All, Bool-cases,
}
use fwh_osm.Prelude.Text.{Text, is_space}
use mathlib.Core.List.{Permᴰ}
use mathlib.Core.List.Permᴰ

abbrev pub space : ℕ
space = b' '

abbrev pub push_word : Text → List Text → List Text
push_word [] ws = ws
push_word (c ∷ w) ws = (c ∷ w) ∷ ws

-- The word that a text begins with, and the words after it.
unfoldable pub word_parts : Text → Text × List Text
word_parts [] = ([], [])
word_parts (c ∷ s) =
    let (cur, rest) = word_parts s in
    if is_space c then ([], push_word cur rest) else (c ∷ cur, rest)

-- `s.split()`
unfoldable pub words : Text → List Text
unfolding word_parts
words s = let (cur, rest) = word_parts s in push_word cur rest

-- `" ".join(ws)`
unfoldable pub join_words : List Text → Text
join_words [] = []
join_words (w ∷ []) = w
join_words (w ∷ v ∷ ws) = w ++ space ∷ join_words (v ∷ ws)

-- `s <= t`, by code points
unfoldable pub leb_text : Text → Text → Bool
leb_text [] t = true
leb_text (a ∷ s) [] = false
leb_text (a ∷ s) (b ∷ t) = ltb a b || (a == b && leb_text s t)

unfoldable pub insert_text : Text → List Text → List Text
unfolding leb_text
insert_text w [] = w ∷ []
insert_text w (v ∷ vs) = if leb_text w v then w ∷ v ∷ vs else v ∷ insert_text w vs

-- `sorted(ws)`
unfoldable pub sorted : List Text → List Text
unfolding insert_text
sorted [] = []
sorted (w ∷ ws) = insert_text w (sorted ws)

leb_text_total : (s t : Text) → leb_text s t ≡ false → leb_text t s ≡ true
unfolding leb_text
leb_text_total [] t h = ground arith
leb_text_total (a ∷ s) [] h = refl
leb_text_total (a ∷ s) (b ∷ t) h = ground (arith, leb_text_total s t)

leb_text_antisym : (s t : Text) → leb_text s t ≡ true → leb_text t s ≡ true → s ≡ t
unfolding leb_text
leb_text_antisym [] [] h k = refl
leb_text_antisym [] (b ∷ t) h k = absurd (ground arith)
leb_text_antisym (a ∷ s) [] h k = absurd (ground arith)
leb_text_antisym (a ∷ s) (b ∷ t) h k = ground (arith, leb_text_antisym s t)

leb_text_trans : (s t u : Text) → leb_text s t ≡ true → leb_text t u ≡ true → leb_text s u ≡ true
unfolding leb_text
leb_text_trans [] t u h k = refl
leb_text_trans (a ∷ s) [] u h k = absurd (ground arith)
leb_text_trans (a ∷ s) (b ∷ t) [] h k = absurd (ground arith)
leb_text_trans (a ∷ s) (b ∷ t) (c ∷ u) h k = ground (arith, leb_text_trans s t u)

-- The order in which two words are put into a list does not matter.
insert_text_comm :
    (w v : Text) (us : List Text)
    → insert_text w (insert_text v us) ≡ insert_text v (insert_text w us)
unfolding insert_text
insert_text_comm w v [] =
    ground (arith, leb_text_total w v, leb_text_total v w, leb_text_antisym w v)
insert_text_comm w v (u ∷ us) = ground (
  arith,
  insert_text_comm w v us,
  leb_text_total w v,
  leb_text_total v w,
  leb_text_antisym w v,
  leb_text_trans w v u,
  leb_text_trans v w u,
  leb_text_total w u,
  leb_text_total v u,
)

-- Lists of the same words are sorted to the same list.
pub sorted-Perm : (ws vs : List Text) → Permᴰ ws vs → sorted ws ≡ sorted vs
unfolding sorted
sorted-Perm _ _ Permᴰ.nil = refl
sorted-Perm (a ∷ ws) (b ∷ vs) (Permᴰ.cons e p) = rw (e, sorted-Perm ws vs p) refl
sorted-Perm (a ∷ b ∷ ws) (a' ∷ b' ∷ _) (Permᴰ.swap e f) =
    rw (e, f) (insert_text_comm b' a' (sorted ws))
sorted-Perm ws vs (Permᴰ.trans {l₂ = us} p q) = sorted-Perm ws us p ∙ sorted-Perm us vs q

-- A word of `split`: not empty and without white space.
abbrev pub IsWord : Text → Type 0
IsWord w = (is_empty w ≡ false) × All (λ c. is_space c ≡ false) w

pub word_parts_gap :
    (w s : Text) → All (λ c. is_space c ≡ false) w → word_parts (w ++ space ∷ s) ≡ (w, words s)
unfolding word_parts words
word_parts_gap [] s h = refl
word_parts_gap (c ∷ w) s (no_space, h) = rw (word_parts_gap w s h, no_space) refl

pub word_parts_word : (w : Text) → All (λ c. is_space c ≡ false) w → word_parts w ≡ (w, [])
unfolding word_parts
word_parts_word [] h = refl
word_parts_word (c ∷ w) (no_space, h) = rw (word_parts_word w h, no_space) refl

pub push_word-word : (w : Text) (ws : List Text) → is_empty w ≡ false → push_word w ws ≡ w ∷ ws
push_word-word [] ws h = absurd (ground arith)
push_word-word (c ∷ w) ws h = refl

Perm-insert_text : (w : Text) (vs : List Text) → Permᴰ (insert_text w vs) (w ∷ vs)
unfolding insert_text
Perm-insert_text w [] = Permᴰ.cons refl Permᴰ.nil
Perm-insert_text w (v ∷ vs) = elim (Bool-cases (leb_text w v)) [
  | inl le ↦ rw (insert_text, le) (Permᴰ.refl (w ∷ v ∷ vs))
  | inr gt ↦
      rw (insert_text, gt)
        (Permᴰ.trans (Permᴰ.cons refl (Perm-insert_text w vs)) (Permᴰ.swap refl refl))
]

pub Perm-sorted : (ws : List Text) → Permᴰ (sorted ws) ws
unfolding sorted
Perm-sorted [] = Permᴰ.nil
Perm-sorted (w ∷ ws) =
    Permᴰ.trans (Perm-insert_text w (sorted ws)) (Permᴰ.cons refl (Perm-sorted ws))
