-- ===== src/Commit.antt =====
-- commit.go, with the report of pending changes of worktree.go: what an armed volume commits when its tree
-- has rested. git is the record `TreeGit`, whose operations answer the next state of the work tree `R`.
pub mod Report
pub mod Stage
use git_csi_driver.Prelude.{
  ℕ, zero, suc, ◌-◌, Bool, true, false, not, ◌&&◌, ◌||◌, Option, none, some, List, [], ◌∷◌, ◌++◌,
  ◌==◌, if◌then◌else◌, ℤ, pos, ltb_ℤ, ◌>>=◌, ◌>>◌, guard,
}
use git_csi_driver.Prelude.Text.{Bytes, codes, same, is_empty, split}
use git_csi_driver.Policy.{Policy, author}
use git_csi_driver.Volume.{Volume, Change, report_skipped}

-- `stageBatch`
abbrev pub stage_batch : ℕ
stage_batch = 100

-- `splitZero`: the paths of a report of git's, each with a zero byte behind it.
unfoldable pub nonempty : List Bytes → List Bytes
nonempty [] = []
nonempty (entry ∷ entries) = if is_empty entry then nonempty entries else entry ∷ nonempty entries

unfoldable pub split_zero : Bytes → List Bytes
unfolding nonempty
split_zero report = nonempty (split 0 report)

-- The size of a path, and zero for a path that is gone.
unfoldable pub size_of : (Bytes → Option ℤ) → Bytes → ℤ
size_of sizes path = elim (sizes path) [ none ↦ pos 0 | some size ↦ size ]

-- The entries of a status report. After a rename or a copy the next entry is the path before, which the
-- flag skips.
unfoldable pub read_entries : (Bytes → Option ℤ) → Bool → List Bytes → List Change
unfolding size_of
read_entries sizes skip [] = []
read_entries sizes true (entry ∷ entries) = read_entries sizes false entries
read_entries sizes false ((x ∷ y ∷ blank ∷ c ∷ path) ∷ entries) =
    record { path = c ∷ path; size = size_of sizes (c ∷ path) }
    ∷ read_entries sizes (x == b'R' || x == b'C') entries
read_entries sizes false ([] ∷ entries) = read_entries sizes false entries
read_entries sizes false ((a ∷ []) ∷ entries) = read_entries sizes false entries
read_entries sizes false ((a ∷ b ∷ []) ∷ entries) = read_entries sizes false entries
read_entries sizes false ((a ∷ b ∷ c ∷ []) ∷ entries) = read_entries sizes false entries

unfoldable pub changes : (Bytes → Option ℤ) → Bytes → List Change
unfolding read_entries
changes sizes report = read_entries sizes false (split 0 report)

-- Whether the size guard leaves a change out.
unfoldable pub too_large : Policy → Change → Bool
too_large rules one = ltb_ℤ (pos 0) rules.max_file_size && ltb_ℤ rules.max_file_size one.size

-- The paths to stage and the changes left out.
unfoldable pub guard_sizes : Policy → List Change → List Bytes × List Change
unfolding too_large
guard_sizes rules [] = ([], [])
guard_sizes rules (one ∷ found) =
    let (paths, skipped) = guard_sizes rules found in
    if too_large rules one then (paths, one ∷ skipped) else (one.path ∷ paths, skipped)

-- `slices.Chunk`: the rest of a batch that takes so many more, and the batches after it.
unfoldable pub chunks_from : ℕ → ℕ → List Bytes → List Bytes × List (List Bytes)
chunks_from size left [] = ([], [])
chunks_from size zero (path ∷ paths) =
    let (batch, batches) = chunks_from size (size - 1) paths in ([], (path ∷ batch) ∷ batches)
chunks_from size (suc left) (path ∷ paths) =
    let (batch, batches) = chunks_from size left paths in (path ∷ batch, batches)

unfoldable pub chunk : ℕ → List Bytes → List (List Bytes)
unfolding chunks_from
chunk size paths = (chunks_from size 0 paths).1

abbrev join_lines : List Bytes → Bytes
join_lines [] = []
join_lines (line ∷ []) = line
join_lines (line ∷ next ∷ lines) = line ++ b'\n' ∷ join_lines (next ∷ lines)

-- What `exclude` writes: the patterns of the class, one on each line.
unfoldable pub exclude_content : List Bytes → Bytes
exclude_content [] = []
exclude_content (pattern ∷ patterns) = join_lines (pattern ∷ patterns) ++ b'\n' ∷ []

pub record TreeGit (R : Type 0) : Type 0 where
  -- The exclude file, and its write, which may fail.
  pub excluded : R → Option Bytes
  pub write_exclude : Bytes → R → R × Bool
  -- `git status` and the sizes of the paths it names.
  pub status : R → Option Bytes
  pub sizes : R → Bytes → Option ℤ
  pub add : List Bytes → R → R × Bool
  -- `git diff --cached`
  pub staged_report : R → Option Bytes
  pub commit_paths : List Bytes → List Bytes → R → R × Bool
  pub record_metadata : R → R

module _ {R : Type 0} (git : TreeGit R) where
  unfoldable pub exclude : List Bytes → R → R × Bool
  unfolding exclude_content
  exclude patterns r =
      let content = exclude_content patterns in
      let stands : Bool = elim (git.excluded r) [
        | none ↦ false
        | some standing ↦ same standing content
      ] in
      if stands then (r, true) else git.write_exclude content r

  unfoldable pub pending : R → Option (List Change)
  unfolding changes
  pending r = elim (git.status r) [
    | none ↦ none
    | some report ↦ some (changes (git.sizes r) report)
  ]

  -- The adds stop at the first that fails.
  unfoldable pub add_each : List (List Bytes) → R → R × Bool
  add_each [] r = (r, true)
  add_each (batch ∷ batches) r =
      let (next, done) = git.add batch r in
      elim done [ false ↦ (next, false) | true ↦ add_each batches next ]

  unfoldable pub staged : R → Option (List Bytes)
  unfolding split_zero
  staged r = elim (git.staged_report r) [ none ↦ none | some report ↦ some (split_zero report) ]

  -- The tree, what the index holds where every call worked, and what the guard left out.
  unfoldable pub stage_changes : List Change → Policy → R → R × Option (List Bytes) × List Change
  unfolding guard_sizes chunk add_each staged
  stage_changes found rules r =
      let (paths, skipped) = guard_sizes rules found in
      let (next, added) = add_each (chunk stage_batch paths) r in
      (next, if added then staged next else none, skipped)

  -- What the index held: a commit of no path is none.
  unfoldable pub commit_staged : Policy → Option (List Bytes) → R → R × Bool
  commit_staged rules none r = (r, false)
  commit_staged rules (some []) r = (r, true)
  commit_staged rules (some (path ∷ paths)) r = git.commit_paths (author rules) (path ∷ paths) r

  unfoldable pub stage_and_commit : Policy → Volume → R → Volume × R × Bool
  unfolding exclude pending stage_changes commit_staged
  stage_and_commit rules v r =
      let (written, excludes) = exclude rules.ignore r in
      if not excludes then (v, written, false) else elim (pending written) [
        | none ↦ (v, written, false)
        | some found ↦
            let (next, index, skipped) = stage_changes found rules written in
            let (committed, done) = commit_staged rules index next in
            ((report_skipped skipped v).0, committed, done)
      ]

  unfoldable pub commit : Policy → Volume → R → Volume × R × Bool
  unfolding stage_and_commit
  commit rules v r = stage_and_commit rules v (if rules.metadata then git.record_metadata r else r)
