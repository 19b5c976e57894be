-- ===== src/Prelude/Dict/Order.antt =====
-- A Go map has no order: lookups do not depend on the order in which the entries are listed.
use mathlib.Core.List.{Permᴰ}
use git_csi_driver.Prelude.Text.{Bytes, same_iff}
use git_csi_driver.Prelude.Dict.{Dict, lookup}
use mathlib.Core.Path.{◌≡◌, refl, ◌∙◌}
use mathlib.Core.Option.{none}
use mathlib.Core.List.{[], ◌∷◌}
use native.Mathlib.Omega.{arith}

module _ {ℓ} {V : Type ℓ} where
  -- No key stands twice.
  abbrev pub IsDistinct : Dict V → Type ℓ
  IsDistinct [] = Unit
  IsDistinct ((k, v) ∷ m) = (lookup k m ≡ none) × IsDistinct m

  perm_facts :
      {m n : Dict V}
      → Permᴰ m n
      → IsDistinct m
      → IsDistinct n × ((j : Bytes) → lookup j m ≡ lookup j n)
  unfolding lookup
  perm_facts Permᴰ.nil d = (tt, λ j. refl)
  perm_facts (Permᴰ.cons {a = (k, v)} {b = (i, w)} e p) d =
      let (d', alike_lookup) = perm_facts p d.1 in
      ((ground (arith, alike_lookup k, e), d'), λ j. ground (arith, alike_lookup j, e))
  perm_facts (Permᴰ.swap {a = (k, v)} {b = (i, w)} {a' = (k', v')} {b' = (i', w')} e f) d = (
    (ground (arith, same_iff k i, same_iff i k), (ground (arith, same_iff k i), ground arith)),
    λ j. ground (arith, same_iff k j, same_iff i j, same_iff k i),
  )
  perm_facts (Permᴰ.trans p q) d =
      let (d', first) = perm_facts p d in
      let (d'', second) = perm_facts q d' in (d'', λ j. first j ∙ second j)

  pub lookup-perm : (j : Bytes) {m n : Dict V} → Permᴰ m n → IsDistinct m → lookup j m ≡ lookup j n
  lookup-perm j p d = (perm_facts p d).1 j

  pub perm-IsDistinct : {m n : Dict V} → Permᴰ m n → IsDistinct m → IsDistinct n
  perm-IsDistinct p d = (perm_facts p d).0
