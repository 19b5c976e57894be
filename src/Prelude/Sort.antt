-- ===== src/Prelude/Sort.antt =====
-- `sort.Strings`: byte order, which is total, so a sorted list does not depend on the order before.
pub mod Ascending
use mathlib.Core.List.{List, [], ◌∷◌, Permᴰ}
use mathlib.Core.Bool.{Bool, true, false, ◌&&◌, ◌||◌}
use mathlib.Core.Path.{◌≡◌, refl, ◌∙◌}
use native.Mathlib.Omega.{arith}
use git_csi_driver.Prelude.Tests.{ltb, ◌==◌, if◌then◌else◌}
use git_csi_driver.Prelude.Text.{Bytes}

-- Whether the first text comes before the second, or is it.
unfoldable pub precedes : Bytes → Bytes → Bool
precedes [] t = true
precedes (c ∷ s) [] = false
precedes (c ∷ s) (d ∷ t) = ltb c d || (c == d && precedes s t)

pub precedes_total : (s t : Bytes) → precedes s t ≡ false → precedes t s ≡ true
unfolding precedes
precedes_total [] t h = cc
precedes_total (c ∷ s) [] h = refl
precedes_total (c ∷ s) (d ∷ t) h = ground (arith, precedes_total s t)

precedes_antisymm : (s t : Bytes) → precedes s t ≡ true → precedes t s ≡ true → s ≡ t
unfolding precedes
precedes_antisymm [] [] h k = refl
precedes_antisymm [] (d ∷ t) h k = cc
precedes_antisymm (c ∷ s) [] h k = cc
precedes_antisymm (c ∷ s) (d ∷ t) h k = ground (arith, precedes_antisymm s t)

pub precedes_trans :
    (s t u : Bytes) → precedes s t ≡ true → precedes t u ≡ true → precedes s u ≡ true
unfolding precedes
precedes_trans [] t u h k = refl
precedes_trans (c ∷ s) [] u h k = cc
precedes_trans (c ∷ s) (d ∷ t) [] h k = cc
precedes_trans (c ∷ s) (d ∷ t) (e ∷ u) h k = ground (arith, precedes_trans s t u)

unfoldable pub place : Bytes → List Bytes → List Bytes
place s [] = s ∷ []
place s (t ∷ l) = let later = place s l in if precedes s t then s ∷ t ∷ l else t ∷ later

unfoldable pub sort : List Bytes → List Bytes
unfolding place precedes
sort [] = []
sort (s ∷ l) = place s (sort l)

place_comm : (s t : Bytes) (l : List Bytes) → place s (place t l) ≡ place t (place s l)
unfolding place
place_comm s t [] = ground (arith, precedes_total s t, precedes_antisymm s t)
place_comm s t (u ∷ l) = ground (
  arith,
  place_comm s t l,
  precedes_total s t,
  precedes_antisymm s t,
  precedes_total t s,
  precedes_trans s t u,
  precedes_trans t s u,
)

-- Lists with the same texts in another order sort alike.
pub sort-perm : {l m : List Bytes} → Permᴰ l m → sort l ≡ sort m
unfolding sort
sort-perm Permᴰ.nil = refl
sort-perm (Permᴰ.cons {a = s} {b = t} {l₁ = l} e p) = cc (sort-perm p)
sort-perm (Permᴰ.swap {a = s} {b = t} {a' = s'} {b' = t'} {l = l} e f) =
    cc (place_comm s t (sort l))
sort-perm (Permᴰ.trans p q) = sort-perm p ∙ sort-perm q
