-- ===== src/Commit/Report.antt =====
-- worktree.go and commit.go: the reports of git are read as what git reports.
use git_csi_driver.Prelude.{
  ℕ, ◌≡◌, refl, ap, ◌∙◌, ◌≢◌, Bool, true, false, ◌||◌, Option, List, [], ◌∷◌, ◌++◌, map, ◌==◌, All,
  ℤ,
}
use git_csi_driver.Prelude.Text.{Bytes, Lacks, split}
use git_csi_driver.Prelude.Text.Laws.{split-append}
use git_csi_driver.Volume.{Change}
use git_csi_driver.Commit.{nonempty, split_zero, size_of, read_entries, changes}

-- An entry of `git status --porcelain -z`: the two status letters, the path, of one byte at least, and the
-- path before a rename or a copy.
pub record Entry : Type 0 where
  pub index : ℕ
  pub tree : ℕ
  pub first : ℕ
  pub rest : Bytes
  pub before : Bytes

abbrev moved : Entry → Bool
moved e = e.index == b'R' || e.index == b'C'

abbrev entry_line : Entry → Bytes
entry_line e = e.index ∷ e.tree ∷ b' ' ∷ e.first ∷ e.rest

abbrev after : Bool → Bytes → Bytes → Bytes
after true before later = before ++ 0 ∷ later
after false before later = later

-- What stands behind an entry: the path before, where there is one, and the entries to come.
abbrev after_entry : Entry → Bytes → Bytes
after_entry e later = after (moved e) e.before later

abbrev pub write_report : List Entry → Bytes
write_report [] = []
write_report (e ∷ entries) = entry_line e ++ 0 ∷ after_entry e (write_report entries)

abbrev pub IsEntry : Entry → Type 0
IsEntry e = Lacks 0 (entry_line e) × Lacks 0 e.before

abbrev pub change_of : (Bytes → Option ℤ) → Entry → Change
change_of sizes e = record { path = e.first ∷ e.rest; size = size_of sizes (e.first ∷ e.rest) }

read_entries-entry :
    (sizes : Bytes → Option ℤ) (e : Entry) (lines : List Bytes)
    → read_entries sizes false (entry_line e ∷ lines)
      ≡ change_of sizes e ∷ read_entries sizes (moved e) lines
unfolding read_entries
read_entries-entry sizes e lines = refl

read_entries-after :
    (sizes : Bytes → Option ℤ) (skip : Bool) (before later : Bytes)
    → Lacks 0 before
    → read_entries sizes skip (split 0 (after skip before later))
      ≡ read_entries sizes false (split 0 later)
unfolding read_entries
read_entries-after sizes false before later h = refl
read_entries-after sizes true before later h =
    ap (read_entries sizes true) (split-append 0 before later h)

-- What a status report writes of a path is read as that path with its size, where no path and no status
-- letter holds a zero byte: every entry of the report is one change, and the path before a rename or a copy
-- is none.
pub changes-write_report :
    (sizes : Bytes → Option ℤ) (entries : List Entry)
    → All IsEntry entries
    → changes sizes (write_report entries) ≡ map (change_of sizes) entries
unfolding changes read_entries split
changes-write_report sizes [] h = refl
changes-write_report sizes (e ∷ entries) h =
    ap (read_entries sizes false)
      (split-append 0 (entry_line e) (after_entry e (write_report entries)) h.0.0)
    ∙ read_entries-entry sizes e (split 0 (after_entry e (write_report entries)))
    ∙ ap (λ l. change_of sizes e ∷ l)
        (read_entries-after sizes (moved e) e.before (write_report entries) h.0.1
          ∙ changes-write_report sizes entries h.1)

-- The paths of a report that ends each with a zero byte.
abbrev pub write_zero : List Bytes → Bytes
write_zero [] = []
write_zero (path ∷ paths) = path ++ 0 ∷ write_zero paths

-- A list of paths that are not empty and hold no zero byte is read back from git's report of them.
pub split_zero-write_zero :
    (paths : List Bytes)
    → All (λ path. (path ≢ []) × Lacks 0 path) paths
    → split_zero (write_zero paths) ≡ paths
unfolding split_zero nonempty split
split_zero-write_zero [] h = refl
split_zero-write_zero ([] ∷ paths) h = absurd (h.0.0 refl)
split_zero-write_zero ((c ∷ path) ∷ paths) h =
    ap nonempty (split-append 0 (c ∷ path) (write_zero paths) h.0.1)
    ∙ ap (λ l. (c ∷ path) ∷ l) (split_zero-write_zero paths h.1)
