-- ===== src/Node/Stats.antt =====
-- node.go: the calls of the kubelet that change nothing, and the short name of a commit.
use git_csi_driver.Prelude.{
  ℕ, zero, suc, Option, none, some, List, [], ◌∷◌, ltb, if◌then◌else◌, length, Result, err, ok,
  internal, not_found,
}
use git_csi_driver.Prelude.Text.{Bytes, codes, is_empty}
use git_csi_driver.Prelude.Dict.{Dict, lookup}
use git_csi_driver.Records.{StoredVolume}
use git_csi_driver.Store.Tree.{Entries, tree_size}
use git_csi_driver.Node.{refused_argument}
use git_csi_driver.Node.Stage.{failed}

pub record VolumeUsage : Type 0 where
  pub used : ℕ
  pub available : ℕ
  pub total : ℕ

abbrev used_of : Option Entries → Result VolumeUsage
used_of none = err (failed internal)
used_of (some tree) = ok (record { used = tree_size tree; available = 0; total = tree_size tree })

-- `tree_of` reads the tree of a volume, where it can be read.
unfoldable pub volume_stats :
    (StoredVolume → Option Entries) → Bytes → Bytes → Dict StoredVolume → Result VolumeUsage
unfolding tree_size
volume_stats tree_of id path volumes =
    if is_empty id
    then err (refused_argument (codes "volume_id"))
    else if is_empty path
    then err (refused_argument (codes "volume_path"))
    else elim (lookup id volumes) [
      | none ↦ err (failed not_found)
      | some published ↦ used_of (tree_of published)
    ]

pub data NodeCapability : Type 0 where
  stages_volumes tells_stats knows_single_writer : NodeCapability

unfoldable node_capabilities : List NodeCapability
node_capabilities = stages_volumes ∷ tells_stats ∷ knows_single_writer ∷ []

abbrev take : ℕ → Bytes → Bytes
take zero s = []
take (suc n) [] = []
take (suc n) (c ∷ s) = c ∷ take n s

unfoldable short : Bytes → Bytes
short commit = if ltb 7 (length commit) then take 7 commit else commit
