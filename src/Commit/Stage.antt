-- ===== src/Commit/Stage.antt =====
-- commit.go: what is staged, in which batches, and what the size guard leaves out.
use git_csi_driver.Prelude.{
  Bool, false, ℤ, pos, negsuc, ltb, ltb_ℤ, ◌&&◌, ℕ, zero, suc, ◌-◌, ◌≤◌, ◌<◌, ◌≡◌, refl, sym, ap,
  ◌∙◌, inl, inr, true, false, some, List, [], ◌∷◌, ◌++◌, append-nil, append_assoc, arith,
  if◌then◌else◌, Bool-cases, length, All,
}
use git_csi_driver.Prelude.Text.{Bytes}
use git_csi_driver.Policy.{Policy}
use git_csi_driver.Volume.{Change}
use git_csi_driver.Commit.{
  TreeGit, chunks_from, chunk, too_large, guard_sizes, add_each, stage_changes, stage_batch,
}

abbrev concat : List (List Bytes) → List Bytes
concat [] = []
concat (batch ∷ batches) = batch ++ concat batches

-- A batch of one path or more, and no more than the size.
abbrev pub IsBatch : ℕ → List Bytes → Type 0
IsBatch size batch = (0 < length batch) × (length batch ≤ size)

chunks_from_lem :
    (size left : ℕ) (paths : List Bytes)
    → 0 < size
    → (let (batch, batches) = chunks_from size left paths in
        ((batch ++ concat batches ≡ paths) × (length batch ≤ left)) × All (IsBatch size) batches)
unfolding chunks_from
chunks_from_lem size left [] h = ((refl, omega arith), tt)
chunks_from_lem size zero (path ∷ paths) h =
    let ((all, fits), each) = chunks_from_lem size (size - 1) paths h in
    ((ap (λ l. path ∷ l) all, omega arith), ((omega arith, omega (arith, fits, h)), each))
chunks_from_lem size (suc left) (path ∷ paths) h =
    let ((all, fits), each) = chunks_from_lem size left paths h in
    ((ap (λ l. path ∷ l) all, omega (arith, fits)), each)

chunks_from_none : (size : ℕ) (paths : List Bytes) → (chunks_from size 0 paths).0 ≡ []
unfolding chunks_from
chunks_from_none size [] = refl
chunks_from_none size (path ∷ paths) = refl

-- The batches are the paths in their order, and every batch has one path at least and no more than the size.
pub chunk_lem :
    (size : ℕ) (paths : List Bytes)
    → 0 < size
    → (concat (chunk size paths) ≡ paths) × All (IsBatch size) (chunk size paths)
unfolding chunk
chunk_lem size paths h =
    let ((all, fits), each) = chunks_from_lem size 0 paths h in
    (
      sym (ap (λ batch. batch ++ concat (chunks_from size 0 paths).1) (chunks_from_none size paths))
          ∙ all,
      each,
    )

-- Over a limit in bytes; a limit of zero, or one below it, is none.
abbrev pub is_over : ℤ → ℤ → Bool
is_over (pos zero) size = false
is_over (negsuc n) size = false
is_over (pos (suc n)) (pos size) = ltb (suc n) size
is_over (pos (suc n)) (negsuc m) = false

limit_lem : (limit size : ℤ) → (ltb_ℤ (pos 0) limit && ltb_ℤ limit size) ≡ is_over limit size
limit_lem (pos zero) size = refl
limit_lem (negsuc n) size = ground arith
limit_lem (pos (suc n)) (pos size) = ground arith
limit_lem (pos (suc n)) (negsuc m) = ground arith

too_large-is_over :
    (rules : Policy) (one : Change) → too_large rules one ≡ is_over rules.max_file_size one.size
unfolding too_large
too_large-is_over rules one = limit_lem rules.max_file_size one.size

-- The changes that the size guard lets through, and those it leaves out.
abbrev pub kept_paths : Policy → List Change → List Bytes
kept_paths rules [] = []
kept_paths rules (one ∷ found) =
    (if is_over rules.max_file_size one.size then [] else one.path ∷ []) ++ kept_paths rules found

abbrev pub large_changes : Policy → List Change → List Change
large_changes rules [] = []
large_changes rules (one ∷ found) =
    (if is_over rules.max_file_size one.size then one ∷ [] else []) ++ large_changes rules found

guard_sizes_lem :
    (rules : Policy) (found : List Change)
    → guard_sizes rules found ≡ (kept_paths rules found, large_changes rules found)
unfolding guard_sizes
guard_sizes_lem rules [] = refl
guard_sizes_lem rules (one ∷ found) = elim (Bool-cases (too_large rules one)) [
  | inl large ↦
      rw (guard_sizes_lem rules found, large, sym (too_large-is_over rules one) ∙ large) refl
  | inr small ↦
      rw (guard_sizes_lem rules found, small, sym (too_large-is_over rules one) ∙ small) refl
]

module _ {R : Type 0} (git : TreeGit R) (indexed : R → List Bytes)
    (adds : (batch : List Bytes) (r : R)
      → (git.add batch r).1 ≡ true
      → indexed (git.add batch r).0 ≡ indexed r ++ batch) where
  add_each-indexed :
      (batches : List (List Bytes)) (r : R)
      → (add_each git batches r).1 ≡ true
      → indexed (add_each git batches r).0 ≡ indexed r ++ concat batches
  unfolding add_each
  add_each-indexed [] r e = sym (append-nil (indexed r))
  add_each-indexed (batch ∷ batches) r e = elim (Bool-cases (git.add batch r).1) [
    | inl added ↦
        let step : add_each git (batch ∷ batches) r ≡ add_each git batches (git.add batch r).0 =
          rw (add_each, added) refl in
        ap (λ p. indexed p.0) step
        ∙ add_each-indexed batches (git.add batch r).0 (sym (ap (λ p. p.1) step) ∙ e)
        ∙ ap (λ l. l ++ concat batches) (adds batch r added)
        ∙ append_assoc (indexed r) batch (concat batches)
    | inr failed ↦
        let step : add_each git (batch ∷ batches) r ≡ ((git.add batch r).0, false) =
          rw (add_each, failed) refl in
        let stopped : false ≡ true = sym (ap (λ p. p.1) step) ∙ e in cc stopped
  ]

  -- A stage that answers what the index holds has added the paths of all the changes that are not over the
  -- largest size of the class, where it is more than zero, in their order and nothing else, and answers exactly the others as skipped, where an
  -- add of git's that works adds the paths it is given.
  pub stage_changes_lem :
      (found : List Change) (rules : Policy) (r : R) (index : List Bytes)
      → (stage_changes git found rules r).1 ≡ some index
      → (indexed (stage_changes git found rules r).0 ≡ indexed r ++ kept_paths rules found)
        × ((stage_changes git found rules r).2 ≡ large_changes rules found)
  unfolding stage_changes
  stage_changes_lem found rules r index e =
      let guarded = guard_sizes_lem rules found in
      let (all, each) = chunk_lem stage_batch (guard_sizes rules found).0 (omega arith) in
      (
        add_each-indexed (chunk stage_batch (guard_sizes rules found).0) r (ground (arith, e))
            ∙ ap (λ l. indexed r ++ l) (all ∙ ap (λ p. p.0) guarded),
        ap (λ p. p.1) guarded,
      )
