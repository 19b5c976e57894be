-- ===== src/Store/Placed.antt =====
-- store.go: what a placement leaves in the directory of a volume.
use git_csi_driver.Prelude.{
  ℕ, ◌≡◌, refl, ◌∙◌, ◌⊎◌, inl, inr, Bool, true, false, Option, none, some, List, [], ◌∷◌, ◌++◌,
  if-either,
}
use git_csi_driver.Prelude.Text.{Bytes, trim_right}
use git_csi_driver.Store.{
  Directory, Placing, place_then, record_placed, placed_commit, arrive_at, arrive, place, trim_line,
}
use git_csi_driver.Store.Tree.{Entries, Call, works, fails, replace_tree}
use git_csi_driver.Store.Tree.Replaced.{IsProper, content, replace_tree-content}

-- A reader finds the entries in the tree of the volume, at every path.
abbrev pub Holds : Entries → Directory → Type 0
Holds e d = (inode : ℕ) × (q : Entries) × (d.tree ≡ some (inode, q)) × (content q ≡ content e)

trim_right-append_last :
    (drops : ℕ → Bool) (s : Bytes) (c : ℕ)
    → drops c ≡ true
    → trim_right drops (s ++ c ∷ []) ≡ trim_right drops s
unfolding trim_right
trim_right-append_last drops [] c dropped = rw dropped refl
trim_right-append_last drops (b ∷ s) c dropped = rw (trim_right-append_last drops s c dropped) refl

-- A step that works leaves the tree as wanted, and in any case the file of the commit as it was.
abbrev Brings : Entries → Directory → Placing → Type 0
Brings e d p = (p.directory.placed ≡ d.placed) × (p.is_ok ≡ true → Holds e p.directory)

arrive_at-Brings :
    (inode : ℕ) (e : Entries) (there : Option (ℕ × Entries)) (d : Directory) (calls : List Call)
    → IsProper e
    → Brings e d (arrive_at (inode, e) there d calls)
unfolding arrive_at
arrive_at-Brings inode e none d [] proper = (refl, λ worked. (inode, e, refl, refl))
arrive_at-Brings inode e none d (works ∷ calls) proper = (refl, λ worked. (inode, e, refl, refl))
arrive_at-Brings inode e none d (fails part ∷ calls) proper = (refl, λ worked. cc worked)
arrive_at-Brings inode e (some (standing, q)) d calls proper =
    let r = replace_tree e q calls in
    if-either (λ (p : Placing). Brings e d p) r.is_ok
      (λ worked. (
        refl,
        λ again. (standing, r.published, refl, replace_tree-content e q calls proper worked),
      ))
      (λ failed. (refl, λ worked. cc (failed, worked)))

-- What a placement promises: it fails and the file names the commit that it named, or it works, the tree
-- reads as the checkout and the file names its commit.
abbrev pub IsPlaced : Bytes → Entries → Directory → Placing → Type 0
IsPlaced commit e d p =
    ((p.is_ok ≡ false) × (p.directory.placed ≡ d.placed))
    ⊎ ((p.is_ok ≡ true) × Holds e p.directory × (placed_commit p.directory ≡ commit))

written_commit :
    (commit : Bytes) → trim_line commit ≡ commit → trim_line (commit ++ b'\n' ∷ []) ≡ commit
written_commit commit trimmed = trim_right-append_last _ commit b'\n' refl ∙ trimmed

record_placed-IsPlaced :
    (commit : Bytes) (e : Entries) (d : Directory) (calls : List Call)
    → trim_line commit ≡ commit
    → Holds e d
    → IsPlaced commit e d (record_placed commit d calls)
unfolding record_placed placed_commit
record_placed-IsPlaced commit e d [] trimmed held = inr (refl, held, written_commit commit trimmed)
record_placed-IsPlaced commit e d (works ∷ []) trimmed held =
    inr (refl, held, written_commit commit trimmed)
record_placed-IsPlaced commit e d (works ∷ works ∷ calls) trimmed held =
    inr (refl, held, written_commit commit trimmed)
record_placed-IsPlaced commit e d (works ∷ fails part ∷ calls) trimmed held = inl (refl, refl)
record_placed-IsPlaced commit e d (fails part ∷ calls) trimmed held = inl (refl, refl)

place_then-either :
    (P : Placing → Type 0) (p : Placing) (next : Directory → List Call → Placing)
    → (p.is_ok ≡ false → P p)
    → (p.is_ok ≡ true → P (next p.directory p.calls))
    → P (place_then p next)
place_then-either P p next stops goes = if-either P p.is_ok goes stops

after-IsPlaced :
    (commit : Bytes) (e : Entries) (d d' : Directory) (p : Placing)
    → d'.placed ≡ d.placed
    → IsPlaced commit e d' p
    → IsPlaced commit e d p
after-IsPlaced commit e d d' p kept (inl (failed, left)) = inl (failed, left ∙ kept)
after-IsPlaced commit e d d' p kept (inr placed) = inr placed

fresh-IsPlaced :
    (commit : Bytes) (inode : ℕ) (e : Entries) (d : Directory) (calls : List Call)
    → IsProper e
    → trim_line commit ≡ commit
    → IsPlaced commit e d (place_then (arrive (inode, e) d calls) (record_placed commit))
unfolding arrive
fresh-IsPlaced commit inode e d calls proper trimmed =
    let p = arrive (inode, e) d calls in
    let (kept, holds) = arrive_at-Brings inode e d.tree d calls proper in
    place_then-either (IsPlaced commit e d) p (record_placed commit) (λ failed. inl (failed, kept))
      λ worked.
        after-IsPlaced commit e d p.directory (record_placed commit p.directory p.calls) kept
          (record_placed-IsPlaced commit e p.directory p.calls trimmed (holds worked))

-- A placement of a commit that is checked out with distinct names, and that neither begins nor ends a line,
-- fails and leaves the file of the commit as it was, or works: then a reader finds the checkout in the tree at
-- every path, and the file names the commit.
pub place-IsPlaced :
    (checkout : Bytes → Option (ℕ × Entries)) (commit : Bytes) (inode : ℕ) (e : Entries)
    (d : Directory) (calls : List Call)
    → checkout commit ≡ some (inode, e)
    → IsProper e
    → trim_line commit ≡ commit
    → IsPlaced commit e d (place checkout commit d calls)
unfolding place
place-IsPlaced checkout commit inode e d [] found proper trimmed =
    rw found (fresh-IsPlaced commit inode e d [] proper trimmed)
place-IsPlaced checkout commit inode e d (works ∷ calls) found proper trimmed =
    rw found (fresh-IsPlaced commit inode e d calls proper trimmed)
place-IsPlaced checkout commit inode e d (fails part ∷ calls) found proper trimmed =
    inl (refl, refl)
