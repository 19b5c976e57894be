-- ===== src/Node/Stage.antt =====
-- node.go: the fetch of a ref into the shared repository and its place in the volume's own tree. The
-- repository is a record of what its operations answer.
pub mod Served
use git_csi_driver.Prelude.{
  ℕ, Bool, ◌||◌, Option, none, some, [], if◌then◌else◌, ℤ, pos, Code, Error, Result, err, ok, ◌>>=◌,
  ◌>>◌, guard, internal, unavailable,
}
use git_csi_driver.Prelude.Text.{Bytes, codes}
use git_csi_driver.Attributes.{OfflinePolicy}
use git_csi_driver.Volume.{
  Volume, answer_demands_before, report_commit, report_trouble, take_health,
}

pub record Repository : Type 0 where
  pub exists : Bool
  pub creates : Bool
  -- Whether the files of the credential were written.
  pub uses_credential : Bool
  -- The error of the fetch of a ref at a depth.
  pub fetch : Bytes → ℤ → Option Bytes
  pub resolve : Bytes → Option Bytes
  pub place : Bytes → Bool

abbrev pub failed : Code → Error
failed code = record { code = code; subject = [] }

-- A fetch that worked answers every demand stamped before it started.
abbrev pub answered : Option Bytes → ℕ → Volume → Volume
answered none start v = answer_demands_before start v
answered (some message) start v = v

unfoldable pub troubled : Option Bytes → Volume → Volume
unfolding report_trouble
troubled none v = v
troubled (some message) v = (report_trouble message v).0

-- What a fetch and the resolve after it mean: the commit to place, or the failure.
unfoldable pub copy_of : OfflinePolicy → Option Bytes → Option Bytes → Result Bytes
copy_of offline none none = err (failed internal)
copy_of offline none (some commit) = ok commit
copy_of git_csi_driver.Attributes.offline_refuse (some message) resolved = err (failed unavailable)
copy_of git_csi_driver.Attributes.offline_allow_stale (some message) none = err (failed unavailable)
copy_of git_csi_driver.Attributes.offline_allow_stale (some message) (some commit) = ok commit

-- `depth` applies to the first fetch of a repository.
abbrev pub fetch_depth : Repository → ℤ → ℤ
fetch_depth repo depth = if repo.exists then pos 0 else depth

-- `start` is the time before the fetch, `now` that of the health report.
unfoldable pub stage : ℕ → ℕ → Repository → Volume → Result Volume
unfolding copy_of take_health troubled
stage start now repo v = do
  guard (repo.exists || repo.creates) (failed internal)
  guard repo.uses_credential (failed internal)
  let fetched = repo.fetch v.attributes.ref (fetch_depth repo v.attributes.depth)
  commit ← copy_of v.attributes.offline fetched (repo.resolve v.attributes.ref)
  guard (repo.place commit) (failed internal)
  ok (take_health now (troubled fetched (report_commit commit (answered fetched start v)))).0
