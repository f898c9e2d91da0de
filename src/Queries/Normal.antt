-- ===== src/Queries/Normal.antt =====
-- The normal form of an expression: it does not depend on the order of the terms nor on the white space
-- between them, and it is its own normal form.
use fwh_osm.Prelude.{
  ◌≡◌, refl, sym, ◌∙◌, true, false, some, Option-cases, List, [], ◌∷◌, arith, is_empty, All,
  Bool-cases, inl, inr,
}
use fwh_osm.Prelude.Text.{Text, is_space}
use fwh_osm.Queries.Words.{
  push_word, word_parts, words, join_words, leb_text, insert_text, sorted, sorted-Perm, IsWord,
  word_parts_gap, word_parts_word, push_word-word, Perm-sorted,
}
use fwh_osm.Queries.Expression.{normalise, all_terms, validate, digest_of}
use mathlib.Core.List.{Permᴰ}

-- `split` finds words, and of joined words the words again.
push_word-All :
    (w : Text) (ws : List Text)
    → All (λ c. is_space c ≡ false) w
    → All IsWord ws
    → All IsWord (push_word w ws)
push_word-All [] ws h k = k
push_word-All (c ∷ w) ws h k = ((refl, h), k)

word_parts-All :
    (s : Text) → All (λ c. is_space c ≡ false) (word_parts s).0 × All IsWord (word_parts s).1
unfolding word_parts
word_parts-All [] = (tt, tt)
word_parts-All (c ∷ s) =
    let (h, k) = word_parts-All s in
    elim (Bool-cases (is_space c)) [
      | inl gap ↦ rw gap (tt, push_word-All (word_parts s).0 (word_parts s).1 h k)
      | inr letter ↦ rw letter ((letter, h), k)
    ]

words-IsWord : (s : Text) → All IsWord (words s)
unfolding words
words-IsWord s =
    let (h, k) = word_parts-All s in push_word-All (word_parts s).0 (word_parts s).1 h k

words-join_words : (ws : List Text) → All IsWord ws → words (join_words ws) ≡ ws
unfolding words join_words
words-join_words [] h = refl
words-join_words (w ∷ []) ((full, no_space), h) =
    rw (word_parts_word w no_space) (push_word-word w [] full)
words-join_words (w ∷ v ∷ ws) ((full, no_space), h) =
    rw (word_parts_gap w (join_words (v ∷ ws)) no_space, words-join_words (v ∷ ws) h)
      (push_word-word w (v ∷ ws) full)

module _ (P : Text → Type 0) where
  All-insert_text : (w : Text) (vs : List Text) → P w → All P vs → All P (insert_text w vs)
  unfolding insert_text
  All-insert_text w [] p h = (p, tt)
  All-insert_text w (v ∷ vs) p (q, h) = elim (Bool-cases (leb_text w v)) [
    | inl le ↦ rw (insert_text, le) (p, (q, h))
    | inr gt ↦ rw (insert_text, gt) (q, All-insert_text w vs p h)
  ]

  All-sorted : (ws : List Text) → All P ws → All P (sorted ws)
  unfolding sorted
  All-sorted [] h = tt
  All-sorted (w ∷ ws) (p, h) = All-insert_text w (sorted ws) p (All-sorted ws h)

is_empty-Perm : (ws vs : List Text) → Permᴰ ws vs → is_empty ws ≡ is_empty vs
is_empty-Perm _ _ Permᴰ.nil = refl
is_empty-Perm _ _ (Permᴰ.cons e p) = refl
is_empty-Perm _ _ (Permᴰ.swap e f) = refl
is_empty-Perm ws vs (Permᴰ.trans {l₂ = us} p q) = is_empty-Perm ws us p ∙ is_empty-Perm us vs q

normalise-Perm : (e f : Text) → Permᴰ (words e) (words f) → normalise e ≡ normalise f
unfolding normalise
normalise-Perm e f p =
    rw (is_empty-Perm (words e) (words f) p, sorted-Perm (words e) (words f) p) refl

-- The words of a normal form are those of the expression, sorted.
words-normalise : (e n : Text) → normalise e ≡ some n → words n ≡ sorted (words e)
unfolding normalise
words-normalise e n h =
    let same = words-join_words (sorted (words e)) (All-sorted IsWord (words e) (words-IsWord e)) in
    elim (Bool-cases (is_empty (words e))) [
      | inl none_there ↦ absurd (ground arith)
      | inr there ↦ let k : join_words (sorted (words e)) ≡ n = ground arith in rw (sym k) same
    ]

normalise-normal : (e n : Text) → normalise e ≡ some n → normalise n ≡ some n
normalise-normal e n h =
    let p : Permᴰ (words n) (words e) = rw (words-normalise e n h) (Perm-sorted (words e)) in
    normalise-Perm n e p ∙ h

-- `validate` gives expressions with the same terms the same answer, in whatever order and with
-- whatever white space they are written. An expression that it lets through has the same terms as
-- its normal form, all of them terms of a filter, and the normal form is let through as it is, with
-- the digest of the expression.
pub validate-normal :
    (sha256 : Text → Text) (e f : Text)
    → (Permᴰ (words e) (words f) → validate e ≡ validate f)
      × ((n : Text)
          → validate e ≡ some n
          → Permᴰ (words n) (words e)
            × (all_terms (words n) ≡ true)
            × (validate n ≡ some n)
            × (digest_of sha256 n ≡ digest_of sha256 e))
unfolding validate digest_of
validate-normal sha256 e f = (
  (λ p. rw (validate, normalise-Perm e f p) refl),
  (λ n h. elim (Option-cases (normalise e)) [
    | inl refused ↦ absurd (ground arith)
    | inr (m, norm) ↦
        let fine : all_terms (words m) ≡ true = ground (arith, Bool-cases (all_terms (words m))) in
        let same : m ≡ n = ground arith in
        rw (sym same) (
          rw (words-normalise e m norm) (Perm-sorted (words e)),
          fine,
          rw (validate, normalise-normal e m norm, fine) refl,
          rw (digest_of, normalise-normal e m norm, norm) refl,
        )
  ]),
)
