-- ===== src/Roads/Search/Heap.antt =====
-- The heap as a list in the order of its pairs, without repeats.
use fwh_osm.Prelude.{
  ℕ, suc, ◌≡◌, refl, Bool, true, false, ◌&&◌, ◌||◌, List, [], ◌∷◌, arith, ◌==◌, length, All, inl,
  inr, Bool-cases,
}
use fwh_osm.Roads.Search.{Entry, entry_less, heappush}

abbrev pub has_entry : ℕ → ℕ → List Entry → Bool
has_entry d u [] = false
has_entry d u ((d', u') ∷ h) = (d' == d && u' == u) || has_entry d u h

-- Each entry is less than all that stand behind it.
abbrev pub IsOrdered : List Entry → Type 0
IsOrdered [] = Unit
IsOrdered (x ∷ h) = All (λ y. entry_less x y ≡ true) h × IsOrdered h

pub has_entry-heappush :
    (d u d' u' : ℕ) (h : List Entry)
    → has_entry d u (heappush (d', u') h) ≡ ((d' == d && u' == u) || has_entry d u h)
unfolding heappush
has_entry-heappush d u d' u' [] = refl
has_entry-heappush d u d' u' ((d2, u2) ∷ h) = ground (arith, has_entry-heappush d u d' u' h)

pub length-heappush : (x : Entry) (h : List Entry) → length (heappush x h) ≡ suc (length h)
unfolding heappush
length-heappush (d, u) [] = refl
length-heappush (d, u) ((d', u') ∷ h) = ground (arith, length-heappush (d, u) h)

All-heappush :
    (d u d' u' : ℕ) (h : List Entry)
    → entry_less (d, u) (d', u') ≡ true
    → All (λ y. entry_less (d, u) y ≡ true) h
    → All (λ y. entry_less (d, u) y ≡ true) (heappush (d', u') h)
unfolding heappush
All-heappush d u d' u' [] e h = (e, tt)
All-heappush d u d' u' ((d2, u2) ∷ h) e (x, k) = ground (arith, All-heappush d u d' u' h e k)

All-less :
    (d u d' u' : ℕ) (h : List Entry)
    → entry_less (d, u) (d', u') ≡ true
    → All (λ y. entry_less (d', u') y ≡ true) h
    → All (λ y. entry_less (d, u) y ≡ true) h
All-less d u d' u' [] e k = tt
All-less d u d' u' ((d2, u2) ∷ h) e (x, k) = (ground arith, All-less d u d' u' h e k)

pub heappush-IsOrdered :
    (d u : ℕ) (h : List Entry)
    → has_entry d u h ≡ false
    → IsOrdered h
    → IsOrdered (heappush (d, u) h)
unfolding heappush
heappush-IsOrdered d u [] fresh o = (tt, tt)
heappush-IsOrdered d u ((d', u') ∷ h) fresh (less, o) =
    elim (Bool-cases (entry_less (d', u') (d, u))) [
      | inl before ↦
          rw before
            (All-heappush d' u' d u h before less, heappush-IsOrdered d u h (ground arith) o)
      | inr after ↦
          let e : entry_less (d, u) (d', u') ≡ true = ground arith in
          rw after ((e, All-less d u d' u' h e less), (less, o))
    ]

-- The first entry is the least, and is not repeated.
pub ordered_first :
    (d u d' u' : ℕ) (h : List Entry)
    → All (λ y. entry_less (d, u) y ≡ true) h
    → has_entry d' u' h ≡ true
    → entry_less (d, u) (d', u') ≡ true
ordered_first d u d' u' [] k m = cc
ordered_first d u d' u' ((d2, u2) ∷ h) (e, k) m = ground (arith, ordered_first d u d' u' h k)
