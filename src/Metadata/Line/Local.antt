-- ===== src/Metadata/Line/Local.antt =====
-- metadata.go: a record that is read names a path inside the tree.
use git_csi_driver.Prelude.{
  ℕ, zero, suc, ◌+◌, ◌≤◌, ◌≡◌, inl, inr, Bool, true, false, ◌||◌, Option, some, List, [], ◌∷◌, map,
  arith, if◌then◌else◌, if-either, Option-cases, All, weaken_All, ℤ,
}
use mathlib.Core.Path.{subst}
use mathlib.Core.Option.{some-injective}
use git_csi_driver.Prelude.Optional.{>>=-eq-some}
use git_csi_driver.Prelude.Text.{Bytes, codes, same, is_empty, has_prefix, split, trim_suffix}
use git_csi_driver.Prelude.Number.{parse_uint, atoi}
use git_csi_driver.Metadata.{MetadataRecord}
use git_csi_driver.Metadata.Line.{
  next_depth, stays_inside, is_local, local_record, parse_fields, parse_metadata_line, keep_records,
  parse_metadata_content, split_n,
}

-- How many elements of a path lead one directory up, and how many lead one down.
abbrev is_up : Bytes → Bool
is_up part = same part (codes "..")

abbrev stays : Bytes → Bool
stays part = same part (codes ".") || is_empty part

abbrev ups : List Bytes → ℕ
ups [] = 0
ups (part ∷ parts) = (if is_up part then 1 else 0) + ups parts

abbrev downs : List Bytes → ℕ
downs [] = 0
downs (part ∷ parts) = (if is_up part || stays part then 0 else 1) + downs parts

-- The first elements of a path, for each number of them.
abbrev beginnings : List Bytes → List (List Bytes)
beginnings [] = [] ∷ []
beginnings (part ∷ parts) = [] ∷ map (λ l. part ∷ l) (beginnings parts)

-- A path that is relative, and at no point leads further up than it led down before.
abbrev pub IsInside : Bytes → Type 0
IsInside path =
    (is_empty path ≡ false)
    × (has_prefix (codes "/") path ≡ false)
    × All (λ l. ups l ≤ downs l) (beginnings (split b'/' path))

All-map-cons :
    (part : Bytes) (d e : ℕ) (lists : List (List Bytes))
    → d + (if is_up part || stays part then 0 else 1) ≡ e + (if is_up part then 1 else 0)
    → All (λ l. ups l ≤ e + downs l) lists
    → All (λ l. ups l ≤ d + downs l) (map (λ l. part ∷ l) lists)
All-map-cons part d e [] moved h = tt
All-map-cons part d e (l ∷ lists) moved h =
    (omega (arith, moved, h.0), All-map-cons part d e lists moved h.1)

next_depth-eq-some :
    (d e : ℕ) (part : Bytes)
    → next_depth d part ≡ some e
    → d + (if is_up part || stays part then 0 else 1) ≡ e + (if is_up part then 1 else 0)
unfolding next_depth
next_depth-eq-some zero e part h = ground arith
next_depth-eq-some (suc d) e part h = ground arith

stays_inside-beginnings :
    (d : ℕ) (parts : List Bytes)
    → stays_inside d parts ≡ true
    → All (λ l. ups l ≤ d + downs l) (beginnings parts)
unfolding stays_inside
stays_inside-beginnings d [] h = (omega arith, tt)
stays_inside-beginnings d (part ∷ parts) h = elim (Option-cases (next_depth d part)) [
  | inl out ↦ ground arith
  | inr (e, moved) ↦ (
    omega arith,
    All-map-cons part d e (beginnings parts) (next_depth-eq-some d e part moved)
        (stays_inside-beginnings e parts (ground (arith, moved))),
  )
]

is_local-IsInside : (path : Bytes) → is_local path ≡ true → IsInside path
unfolding is_local
is_local-IsInside path h = (
  ground arith,
  ground arith,
  weaken_All (λ l h. omega (arith, h)) _
      (stays_inside-beginnings 0 (split b'/' path) (ground arith)),
)

local_record-IsInside :
    (name : Bytes) (mode : ℕ) (uid gid : ℤ) {one : MetadataRecord}
    → local_record name mode uid gid ≡ some one
    → IsInside one.path
unfolding local_record
local_record-IsInside name mode uid gid {one} e =
    if-either (λ (o : Option MetadataRecord). o ≡ some one → IsInside one.path)
      (is_local (trim_suffix name (codes "/")))
      (λ inside kept.
        subst (λ (r : MetadataRecord). IsInside r.path) (some-injective _ _ kept)
          (is_local-IsInside _ inside))
      (λ out lost. cc lost) e

parse_fields-IsInside :
    (fields : List Bytes) {one : MetadataRecord}
    → parse_fields fields ≡ some one
    → IsInside one.path
unfolding parse_fields
parse_fields-IsInside (mode ∷ uid ∷ gid ∷ name ∷ []) e =
    let (m, e1, f1) = >>=-eq-some (parse_uint 8 32 mode) _ e in
    let (u, e2, f2) = >>=-eq-some (atoi uid) _ f1 in
    let (g, e3, f3) = >>=-eq-some (atoi gid) _ f2 in local_record-IsInside name m u g f3
parse_fields-IsInside [] e = cc
parse_fields-IsInside (a ∷ []) e = cc
parse_fields-IsInside (a ∷ b ∷ []) e = cc
parse_fields-IsInside (a ∷ b ∷ c ∷ []) e = cc
parse_fields-IsInside (a ∷ b ∷ c ∷ d ∷ f ∷ fields) e = cc

keep_records-IsInside : (lines : List Bytes) → All (λ one. IsInside one.path) (keep_records lines)
unfolding keep_records parse_metadata_line
keep_records-IsInside [] = tt
keep_records-IsInside (line ∷ lines) = elim (Option-cases (parse_metadata_line line)) [
  | inl out ↦ rw (out, keep_records) (keep_records-IsInside lines)
  | inr (one, e) ↦
      rw (e, keep_records)
        (parse_fields-IsInside (split_n b' ' 3 line) e, keep_records-IsInside lines)
]

-- Whatever the file holds, every record that is read from it names a path inside the tree: one that is
-- relative, not empty, and at no point leads further up than it led down before.
pub parse_metadata_content-IsInside :
    (content : Bytes) → All (λ one. IsInside one.path) (parse_metadata_content content)
unfolding parse_metadata_content
parse_metadata_content-IsInside content = keep_records-IsInside (split b'\n' content)
