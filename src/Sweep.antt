-- ===== src/Sweep.antt =====
-- sweep.go: what the node removes from its store, the work trees that nothing stages and the repositories
-- and refs that nothing follows. `Trees` and `Repositories` have what a pass promises.
--
-- A directory of a volume is a `Tree`, what the sweep reads of it. `remains` is what `os.RemoveAll` leaves of it:
-- nothing where it works, and else what it had not removed when it failed. `clock` tells when the pass looks at a
-- tree.
pub mod Trees
pub mod Repositories
use git_csi_driver.Prelude.{
  ℕ, Bool, not, ◌||◌, Option, none, some, List, [], ◌∷◌, map, if◌then◌else◌, is_some, ℤ, sub_ℕ,
  leb_ℤ,
}
use git_csi_driver.Prelude.Text.{Bytes, codes, same, is_empty, trim_right}
use git_csi_driver.Store.{trim_line}
use git_csi_driver.Prelude.Dict.{Dict, lookup, insert, remove}
use git_csi_driver.Attributes.{Attributes, parse_volume_context}
use git_csi_driver.Volume.{Volume, report_abandoned}
use git_csi_driver.Records.{Record}

pub record Tree : Type 0 where
  pub exists : Bool
  -- What the file of the unstage holds.
  pub unstaged : Option Bytes
  pub head : Bytes
  pub pushed : Bytes
  pub diverged : Bytes
  pub origin : Bytes
  -- The repository whose objects the tree reads, and the ref its HEAD follows.
  pub alternate : Bytes
  pub followed_ref : Bytes
  pub stored : Option Record

pub record AbandonedTree : Type 0 where
  pub id : Bytes
  pub unstaged : ℕ

-- The store and what the node knows of it. `volumes` and `staged` are the volumes the node holds.
pub record Node : Type 0 where
  pub volumes : Dict Volume
  pub staged : Dict Volume
  pub trees : Dict Tree
  pub kept : Dict ℕ
  pub abandoned : Dict AbandonedTree
  -- The refs of each bare repository, by its directory.
  pub repositories : Dict (List Bytes)

unfoldable pub holds : Bytes → Node → Bool
holds id n = is_some (lookup id n.staged) || is_some (lookup id n.volumes)

unfoldable pub abandon : Tree → Bytes → ℕ → Node → Node
abandon work id when n = if is_empty work.origin then n else record n {
  abandoned = insert work.origin (record { id = id; unstaged = when }) n.abandoned;
}

-- `age` writes the age of a tree. The message keeps the name of the tree.
unfoldable pub note_abandoned : (Bytes → ℕ → Bytes) → Node → Volume → Volume
note_abandoned message n staging = elim (lookup staging.attributes.url n.abandoned) [
  | none ↦ staging
  | some one ↦
      if same one.id staging.id
      then staging
      else report_abandoned (message one.id one.unstaged) staging
]

unfoldable pub unstaged_at : (Bytes → Option ℕ) → Tree → Option ℕ
unstaged_at parse_time work = elim work.unstaged [
  | none ↦ none
  | some content ↦ parse_time (trim_line content)
]

-- A tree in the store, or nothing, in place of the one that was there.
abbrev pub left_by : Bytes → Option Tree → Dict Tree → Dict Tree
left_by id none trees = remove id trees
left_by id (some part) trees = insert id part trees

module _ (parse_time : Bytes → Option ℕ) (sweep_after : ℤ) (clock : Bytes → ℕ)
    (remains : Bytes → Tree → Option Tree) where
  -- A tree that is old enough: it is kept and named, or removed.
  unfoldable pub sweep_old : Tree → Bytes → ℕ → Node → Node
  unfolding abandon
  sweep_old work id when n =
      if is_empty work.head
      then n
      else if not (same work.pushed work.head) || not (is_empty work.diverged)
      then abandon work id when (record n { kept = insert id when n.kept })
      else record n { trees = left_by id (remains id work) n.trees }

  unfoldable pub sweep_tree : Tree → Bytes → Node → Node
  unfolding unstaged_at sweep_old
  sweep_tree work id n = if not work.exists then n else elim (unstaged_at parse_time work) [
    | none ↦ n
    | some when ↦ if leb_ℤ (sub_ℕ (clock id) when) sweep_after then n else sweep_old work id when n
  ]

  unfoldable pub sweep_volume : Bytes → Node → Node
  unfolding holds sweep_tree
  sweep_volume id n =
      if holds id n
      then n
      else elim (lookup id n.trees) [ none ↦ n | some work ↦ sweep_tree work id n ]

  -- `kept` is the map of the pass, which takes the place of the last one's at its end.
  unfoldable pub sweep_each : List Bytes → Node → Node
  unfolding sweep_volume
  sweep_each [] n = n
  sweep_each (id ∷ ids) n = sweep_each ids (sweep_volume id n)

  unfoldable pub sweep_volumes : Node → Node
  unfolding sweep_each
  sweep_volumes n = sweep_each (map (λ entry. entry.0) n.trees) (record n { kept = [] })
