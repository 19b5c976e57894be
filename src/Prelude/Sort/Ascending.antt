-- ===== src/Prelude/Sort/Ascending.antt =====
-- A sorted list of distinct texts ascends, and a list that ascends is sorted already.
use mathlib.Core.List.{List, [], ◌∷◌}
use mathlib.Core.Bool.{true, false}
use mathlib.Core.Path.{◌≡◌, refl}
use mathlib.Core.Logic.{inl, inr}
use native.Mathlib.Omega.{arith}
use git_csi_driver.Prelude.Tests.{All, Bool-cases}
use git_csi_driver.Prelude.Text.{Bytes, same, same_iff}
use git_csi_driver.Prelude.Sort.{precedes, place, sort, precedes_total, precedes_trans}

abbrev pub IsBefore : Bytes → Bytes → Type 0
IsBefore s t = (precedes s t ≡ true) × (same s t ≡ false)

-- Every text comes before all that follow it.
abbrev pub IsAscending : List Bytes → Type 0
IsAscending [] = Unit
IsAscending (s ∷ l) = All (IsBefore s) l × IsAscending l

-- No text stands twice.
abbrev pub AreDistinct : List Bytes → Type 0
AreDistinct [] = Unit
AreDistinct (s ∷ l) = All (λ t. same s t ≡ false) l × AreDistinct l

module _ (P : Bytes → Type 0) where
  place-All : (s : Bytes) (l : List Bytes) → P s → All P l → All P (place s l)
  unfolding place
  place-All s [] p h = (p, tt)
  place-All s (t ∷ l) p h = elim (Bool-cases (precedes s t)) [
    | inl before ↦ rw before (p, h)
    | inr after ↦ rw after (h.0, place-All s l p h.1)
  ]

  sort-All : (l : List Bytes) → All P l → All P (sort l)
  unfolding sort
  sort-All [] h = tt
  sort-All (s ∷ l) h = place-All s (sort l) h.0 (sort-All l h.1)

apart_from_rest :
    (s t : Bytes)
    → precedes s t ≡ true
    → (l : List Bytes) → All (IsBefore t) l
    → All (λ u. same s u ≡ false) l
    → All (IsBefore s) l
apart_from_rest s t p [] h apart = tt
apart_from_rest s t p (u ∷ l) h apart =
    ((precedes_trans s t u p h.0.0, apart.0), apart_from_rest s t p l h.1 apart.1)

place-IsAscending :
    (s : Bytes) (l : List Bytes)
    → All (λ t. same s t ≡ false) l
    → IsAscending l
    → IsAscending (place s l)
unfolding place
place-IsAscending s [] apart h = (tt, tt)
place-IsAscending s (t ∷ l) apart h = elim (Bool-cases (precedes s t)) [
  | inl before ↦ rw before (((before, apart.0), apart_from_rest s t before l h.0 apart.1), h)
  | inr after ↦ rw after (
    place-All (IsBefore t) s l
        (precedes_total s t after, ground (arith, same_iff s t, same_iff t s, apart.0)) h.0,
    place-IsAscending s l apart.1 h.1,
  )
]

pub sort-IsAscending : (l : List Bytes) → AreDistinct l → IsAscending (sort l)
unfolding sort
sort-IsAscending [] h = tt
sort-IsAscending (s ∷ l) h =
    place-IsAscending s (sort l) (sort-All (λ t. same s t ≡ false) l h.0) (sort-IsAscending l h.1)

pub sort_ascending : (l : List Bytes) → IsAscending l → sort l ≡ l
unfolding sort place
sort_ascending [] h = refl
sort_ascending (s ∷ []) h = refl
sort_ascending (s ∷ t ∷ l) h = rw (sort_ascending (t ∷ l) h.1) (ground (arith, h.0))
