-- ===== src/Tests/Store.antt =====
-- The records, the metadata and the sweep at concrete inputs.
use git_csi_driver.Prelude.{Option, ◌≡◌, refl, ◌⊎◌, true, none, some, [], ◌∷◌, arith, pos, ok}
use git_csi_driver.Prelude.Text.{Bytes, codes, split, has_suffix, has_prefix, same}
use git_csi_driver.Prelude.Dict.{lookup}
use git_csi_driver.Attributes.{no_pod, parse_volume_context}
use git_csi_driver.Volume.{Volume, read_only_claim}
use git_csi_driver.Metadata.{MetadataRecord}
use git_csi_driver.Metadata.Line.{
  is_local, stays_inside, next_depth, metadata_content, parse_metadata_content,
}
use git_csi_driver.Metadata.Line.RoundTrip.{IsWritable, parse_metadata_content-metadata_content}
use git_csi_driver.Records.{StoredVolume, record_of}
use git_csi_driver.Records.Mounts.Table.{Mount, IsMountLine}
use git_csi_driver.Records.Resume.{Node, resume_entry}
use git_csi_driver.Records.Resume.Laws.{kept_targets, resume_entry-record_of}
use git_csi_driver.Sweep.Trees.{IsFinished, sweep_volumes_iff}
use git_csi_driver.Sweep.Repositories.Followed.{sweep_store_keeps, has_ref}
use git_csi_driver.Sweep.Repositories.{sweep_store}
use git_csi_driver.Sweep
use git_csi_driver.Tests.Data.{a_volume, attributes_of_url, url, no_claim}

abbrev a_folder : MetadataRecord
a_folder = record { path = codes "a/b"; directory = true; mode = 448; uid = pos 0; gid = pos 5 }

a_folder-IsWritable : IsWritable a_folder
unfolding is_local stays_inside next_depth split has_suffix has_prefix same
a_folder-IsWritable = (
  refl,
  refl,
  (omega arith, (omega arith, (omega arith, tt))),
  omega arith,
  omega arith,
  omega arith,
)

parse_metadata_content-metadata_content_example :
    parse_metadata_content (metadata_content (a_folder ∷ [])) ≡ a_folder ∷ []
parse_metadata_content-metadata_content_example =
    parse_metadata_content-metadata_content (a_folder ∷ []) (a_folder-IsWritable, tt)

abbrev a_mount : Mount
a_mount = record {
  mount_id = codes "36";
  parent_id = codes "35";
  device = codes "0:5";
  root = codes "/";
  point = codes "/a b";
  more = codes "rw" ∷ [];
}

a_mount-IsMountLine : IsMountLine a_mount
a_mount-IsMountLine = (
  refl,
  (refl, (refl, (refl, (refl, tt)))),
  (refl, (refl, (refl, tt))),
  (refl, (refl, (refl, tt))),
  (refl, (refl, (refl, (refl, tt)))),
  (refl, (refl, tt)),
  ((refl, (refl, (refl, tt))), tt),
  omega arith,
)

abbrev a_stored : StoredVolume
a_stored = record {
  volume = record a_volume { targets = (codes "/t", no_pod) ∷ [] };
  context = (codes "url", url) ∷ (codes "ref", codes "main") ∷ (codes "pull", codes "1m") ∷ [];
  target = [];
  staging = codes "/s";
}

a_context : parse_volume_context (λ s. some (pos 60)) a_stored.context ≡ ok attributes_of_url
unfolding parse_volume_context
a_context = refl

abbrev no_node : Node
no_node = record { volumes = []; staged = []; calls = []; dropped = []; recorded = [] }

resume_entry-record_of_example :
    (s' : StoredVolume) × (lookup
        (codes "v")
        (resume_entry
          (λ s. some (pos 60))
          (λ t. true)
          (λ v. some no_claim)
          (λ d. codes "c")
          (λ v. none)
          9
          (record_of a_stored)
          (codes "/d")
          (codes "/t" ∷ [])
          no_node).volumes
      ≡ some s')
    × (record_of s' ≡ record (record_of a_stored) { targets = kept_targets (λ t. true) a_stored })
    × (s'.volume.attributes ≡ attributes_of_url)
unfolding lookup git_csi_driver.Records.Resume.mounted_targets git_csi_driver.Records.target_paths
    same record_of git_csi_driver.Volume.bound_targets git_csi_driver.Prelude.Sort.sort
resume_entry-record_of_example =
    resume_entry-record_of (λ s. some (pos 60)) (λ t. true) (λ v. some no_claim) (λ d. codes "c")
      (λ v. none) 9 a_stored (codes "/d") (codes "/t") [] no_node a_context (refl, tt) refl

abbrev a_tree : git_csi_driver.Sweep.Tree
a_tree = record {
  exists = true;
  unstaged = some (codes "t");
  head = codes "c";
  pushed = codes "c";
  diverged = [];
  origin = url;
  alternate = codes "/r";
  followed_ref = codes "main";
  stored = none;
}

-- A removal that fails when the commits are gone.
abbrev the_rest : Bytes → git_csi_driver.Sweep.Tree → Option git_csi_driver.Sweep.Tree
the_rest id work = some (record work { head = [] })

-- A node that holds one volume, has the tree of another, and a repository with the ref of the volume.
abbrev a_store : git_csi_driver.Sweep.Node
a_store = record {
  volumes = (codes "v", a_volume) ∷ [];
  staged = [];
  trees = (codes "w", a_tree) ∷ [];
  kept = [];
  abandoned = [];
  repositories = (codes "/r", codes "refs/git-csi/main" ∷ []) ∷ [];
}

sweep_volumes_iff_example :
    (IsFinished (λ s. some 1) (pos 5) (λ id. 10) the_rest (codes "w") a_tree a_store
      × (lookup
            (codes "w")
            (git_csi_driver.Sweep.sweep_volumes
              (λ s. some 1)
              (pos 5)
              (λ id. 10)
              the_rest
              a_store).trees
          ≡ the_rest (codes "w") a_tree))
    ⊎ ((¬ IsFinished (λ s. some 1) (pos 5) (λ id. 10) the_rest (codes "w") a_tree a_store)
        × (lookup
              (codes "w")
              (git_csi_driver.Sweep.sweep_volumes
                (λ s. some 1)
                (pos 5)
                (λ id. 10)
                the_rest
                a_store).trees
            ≡ some a_tree))
unfolding lookup same
sweep_volumes_iff_example =
    sweep_volumes_iff (λ s. some 1) (pos 5) (λ id. 10) the_rest (codes "w") a_tree a_store
      (refl, tt) refl

sweep_store_keeps_example :
    has_ref (codes "refs/git-csi/main") (
      lookup
        (codes "/r")
        (sweep_store
          (λ s. none)
          (λ u. codes "/r")
          (λ d r. true)
          (λ d refs. none)
          (λ s. some 1)
          (pos 5)
          (λ id. 10)
          the_rest
          a_store).repositories)
    ≡ true
unfolding lookup same git_csi_driver.Sweep.Repositories.held git_csi_driver.Sweep.Repositories.among
sweep_store_keeps_example =
    sweep_store_keeps (λ s. none) (λ u. codes "/r") (λ d r. true) (λ d refs. none) (λ s. some 1)
      (pos 5) (λ id. 10) the_rest a_store a_volume [] [] (codes "refs/git-csi/main" ∷ []) refl refl
      refl
