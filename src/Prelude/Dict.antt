-- ===== src/Prelude/Dict.antt =====
-- A Go map from strings, as the list of its entries. A list stands for a map where its keys are
-- distinct; `range` walks a map in any order, so it walks any permutation of the list.
pub mod Order
use mathlib.Core.Path.{◌≡◌, refl}
use mathlib.Core.Option.{Option, none, some}
use mathlib.Core.List.{List, [], ◌∷◌}
use native.Mathlib.Omega.{arith}
use git_csi_driver.Prelude.Tests.{if◌then◌else◌}
use git_csi_driver.Prelude.Text.{Bytes, same, same_iff, same_refl}

abbrev pub Dict {ℓ} : Type ℓ → Type ℓ
Dict V = List (Bytes × V)

module _ {ℓ} {V : Type ℓ} where
  unfoldable pub lookup : (key : Bytes) (entries : Dict V) → Option V
  lookup key [] = none
  lookup key (entry ∷ entries) = if same entry.0 key then some entry.1 else lookup key entries

  -- `m[key] = value`
  unfoldable pub insert : (key : Bytes) (value : V) (entries : Dict V) → Dict V
  insert key value [] = (key, value) ∷ []
  insert key value (entry ∷ entries) =
      if same entry.0 key then (key, value) ∷ entries else entry ∷ insert key value entries

  -- `delete(m, k)`
  unfoldable pub remove : Bytes → Dict V → Dict V
  remove k [] = []
  remove k ((j, w) ∷ m) = let rest = remove k m in if same j k then rest else (j, w) ∷ rest

  pub lookup-insert :
      (key other : Bytes) (value : V) (entries : Dict V)
      → lookup other (insert key value entries)
        ≡ (if same key other then some value else lookup other entries)
  unfolding insert lookup
  lookup-insert key other value [] = refl
  lookup-insert key other value ((held, kept) ∷ entries) = ground (
    arith,
    lookup-insert key other value entries,
    same_iff held other,
    same_iff held key,
    same_iff key other,
  )

  pub lookup-remove :
      (k j : Bytes) (m : Dict V) → lookup j (remove k m) ≡ (if same k j then none else lookup j m)
  unfolding lookup remove
  lookup-remove k j [] = ground arith
  lookup-remove k j ((i, w) ∷ m) =
      ground (arith, same_iff k j, same_iff i k, same_iff i j, lookup-remove k j m)

  pub lookup-insert_self :
      (key : Bytes) (value : V) (entries : Dict V)
      → lookup key (insert key value entries) ≡ some value
  lookup-insert_self key value entries = simp (same_refl, lookup-insert)

  pub lookup-remove_self : (k : Bytes) (m : Dict V) → lookup k (remove k m) ≡ none
  lookup-remove_self k m = simp (lookup-remove, same_refl)

-- `m[k]` on a map of strings: the empty string on a missing key.
unfoldable pub value_of : Bytes → Dict Bytes → Bytes
unfolding lookup
value_of k m = elim (lookup k m) [ none ↦ [] | some v ↦ v ]
