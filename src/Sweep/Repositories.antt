-- ===== src/Sweep/Repositories.antt =====
-- sweep.go: the repositories and the refs that a pass removes. `repository_of` is the directory of a URL's
-- repository; git deletes a ref where `deletes` says so, to collect a repository changes no ref, and
-- `removes` is what os.RemoveAll leaves of a repository: nothing, or the refs that a removal that failed left.
pub mod Followed
use git_csi_driver.Prelude.{
  ℕ, Bool, false, not, ◌||◌, Option, none, some, List, [], ◌∷◌, ◌++◌, map, if◌then◌else◌, ℤ, Result,
  err, ok, ◌>>=◌, ◌>>◌, guard,
}
use git_csi_driver.Prelude.Text.{Bytes, codes, same}
use git_csi_driver.Prelude.Dict.{Dict}
use git_csi_driver.Attributes.{Attributes, parse_volume_context}
use git_csi_driver.Volume.{Volume}
use git_csi_driver.Records.{Record}
use git_csi_driver.Sweep.{Tree, Node, sweep_volumes}

-- `refPrefix` and a ref.
abbrev pub full_ref : Bytes → Bytes
full_ref ref = codes "refs/git-csi/" ++ ref

unfoldable pub among : Bytes → List Bytes → Bool
among ref [] = false
among ref (one ∷ refs) = same one ref || among ref refs

-- The volumes the node has published or staged.
unfoldable pub held : Node → List Volume
held n = map (λ entry. entry.1) n.volumes ++ map (λ entry. entry.1) n.staged

module _ (parse_duration : Bytes → Option ℤ) (repository_of : Bytes → Bytes)
    (deletes : Bytes → Bytes → Bool) (removes : Bytes → List Bytes → Option (List Bytes)) where
  unfoldable pub names_repository : Bytes → List Volume → Bool
  names_repository dir [] = false
  names_repository dir (v ∷ volumes) =
      same (repository_of v.attributes.url) dir || names_repository dir volumes

  unfoldable pub read_by_tree : Bytes → Dict Tree → Bool
  read_by_tree dir [] = false
  read_by_tree dir ((id, work) ∷ trees) = same work.alternate dir || read_by_tree dir trees

  unfoldable pub uses_repository : Bytes → Node → Bool
  unfolding held names_repository read_by_tree
  uses_repository dir n = names_repository dir (held n) || read_by_tree dir n.trees

  unfoldable pub held_refs : Bytes → List Volume → List Bytes
  held_refs dir [] = []
  held_refs dir (v ∷ volumes) =
      let refs = held_refs dir volumes in
      if same (repository_of v.attributes.url) dir then full_ref v.attributes.ref ∷ refs else refs

  abbrev parsed_ref : Bytes → Result Attributes → List Bytes
  parsed_ref dir (err refused) = []
  parsed_ref dir (ok parsed) =
      if same (repository_of parsed.url) dir then full_ref parsed.ref ∷ [] else []

  unfoldable pub recorded_ref : Bytes → Option Record → List Bytes
  recorded_ref dir none = []
  recorded_ref dir (some stored) =
      parsed_ref dir (parse_volume_context parse_duration stored.attributes)

  unfoldable pub tree_ref : Bytes → Tree → List Bytes
  tree_ref dir work =
      if not (same work.alternate dir)
      then []
      else if same work.followed_ref []
      then []
      else full_ref work.followed_ref ∷ []

  unfoldable pub followed_in_store : Bytes → Dict Tree → List Bytes
  unfolding recorded_ref tree_ref
  followed_in_store dir [] = []
  followed_in_store dir ((id, work) ∷ trees) =
      recorded_ref dir work.stored ++ (tree_ref dir work ++ followed_in_store dir trees)

  unfoldable pub followed_refs : Bytes → Node → List Bytes
  unfolding held held_refs followed_in_store
  followed_refs dir n = held_refs dir (held n) ++ followed_in_store dir n.trees

  -- The refs that stay: those that are followed, and those that git does not delete.
  unfoldable pub sweep_refs : Bytes → List Bytes → List Bytes → List Bytes
  unfolding among
  sweep_refs dir followed [] = []
  sweep_refs dir followed (ref ∷ refs) =
      let stay = sweep_refs dir followed refs in
      if among ref followed then ref ∷ stay else if deletes dir ref then stay else ref ∷ stay

  unfoldable pub sweep_repository : Bytes → List Bytes → Node → Option (List Bytes)
  unfolding uses_repository sweep_refs followed_refs
  sweep_repository dir refs n =
      if uses_repository dir n
      then some (sweep_refs dir (followed_refs dir n) refs)
      else removes dir refs

  unfoldable pub sweep_each_repository : Node → Dict (List Bytes) → Dict (List Bytes)
  unfolding sweep_repository
  sweep_each_repository n [] = []
  sweep_each_repository n ((dir, refs) ∷ repositories) =
      let swept = sweep_each_repository n repositories in
      elim (sweep_repository dir refs n) [ none ↦ swept | some stay ↦ (dir, stay) ∷ swept ]

  unfoldable pub sweep_repositories : Node → Node
  unfolding sweep_each_repository
  sweep_repositories n = record n { repositories = sweep_each_repository n n.repositories }

  -- One pass: the trees, then the repositories that the trees that stayed no longer name.
  unfoldable pub sweep_store :
      (Bytes → Option ℕ) → ℤ → (Bytes → ℕ) → (Bytes → Tree → Option Tree) → Node → Node
  unfolding sweep_repositories
  sweep_store parse_time sweep_after clock remains n =
      sweep_repositories (sweep_volumes parse_time sweep_after clock remains n)
