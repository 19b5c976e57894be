-- ===== src/Policy/Order.antt =====
-- A class is read in the sorted order of its names, so Go's order of the map does not show.
use mathlib.Core.List.{Permᴰ}
use git_csi_driver.Prelude.{◌≡◌, refl, ap, Option, List, [], ◌∷◌, ℤ, ◌>>=◌}
use git_csi_driver.Prelude.Text.{Bytes, codes}
use git_csi_driver.Prelude.Dict.{Dict, value_of}
use git_csi_driver.Prelude.Dict.Order.{IsDistinct, lookup-perm}
use git_csi_driver.Prelude.Sort.{sort, sort-perm}
use git_csi_driver.Policy.{
  Policy, names_of, parameter_of, read_parameter, read_parameters, default_policy, parse_policy,
}

names_of-perm : {m n : Dict Bytes} → Permᴰ m n → Permᴰ (names_of m) (names_of n)
names_of-perm Permᴰ.nil = Permᴰ.nil
names_of-perm (Permᴰ.cons {a = (k, v)} {b = (i, w)} e p) =
    Permᴰ.cons (ap (λ (x : Bytes × Bytes). x.0) e) (names_of-perm p)
names_of-perm (Permᴰ.swap {a = (k, v)} {b = (i, w)} {a' = (k', v')} {b' = (i', w')} e f) =
    Permᴰ.swap (ap (λ (x : Bytes × Bytes). x.0) e) (ap (λ (x : Bytes × Bytes). x.0) f)
names_of-perm (Permᴰ.trans p q) = Permᴰ.trans (names_of-perm p) (names_of-perm q)

value_of-perm :
    (k : Bytes) {m n : Dict Bytes} → Permᴰ m n → IsDistinct m → value_of k m ≡ value_of k n
unfolding value_of
value_of-perm k o d = rw (lookup-perm k o d, value_of)

module _ (parse_duration parse_quantity : Bytes → Option ℤ) where
  read_parameters-perm :
      (names : List Bytes) {m n : Dict Bytes} (p : Policy)
      → Permᴰ m n
      → IsDistinct m
      → read_parameters parse_duration parse_quantity names m p
        ≡ read_parameters parse_duration parse_quantity names n p
  unfolding read_parameters
  read_parameters-perm [] p o d = refl
  read_parameters-perm (name ∷ names) {m} {n} p o d = rw (value_of-perm name o d) (λ i.
      read_parameter parse_duration parse_quantity (parameter_of name) name (value_of name n) p
      >>= λ next. read_parameters-perm names next o d i)

  -- A class with distinct keys is read with the same rules, or refused with the same error, in whatever
  -- order the map is walked.
  pub parse_policy-perm :
      {m n : Dict Bytes}
      → Permᴰ m n
      → IsDistinct m
      → parse_policy parse_duration parse_quantity m ≡ parse_policy parse_duration parse_quantity n
  unfolding parse_policy
  parse_policy-perm {m} {n} o d = rw (
    lookup-perm (codes "push.maxLatency") o d,
    sort-perm (names_of-perm o),
    read_parameters-perm (sort (names_of n)) default_policy o d,
  )
