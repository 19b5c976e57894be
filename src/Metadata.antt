-- ===== src/Metadata.antt =====
-- metadata.go: the record of what a checkout cannot carry, the modes, the owners and the empty directories,
-- one line for each path. `filepath.Walk` and the file system stand as the list of what a walk meets.
pub mod Line
pub mod Paths
pub mod Commit
pub mod Replay
use git_csi_driver.Prelude.{
  ℕ, Bool, false, not, ◌&&◌, ◌||◌, Option, none, some, List, [], ◌∷◌, ◌==◌, if◌then◌else◌, ℤ, leb_ℤ,
}
use git_csi_driver.Prelude.Text.{Bytes, codes, same, contains_byte}
use git_csi_driver.Prelude.Sort.{precedes}

-- The modes a checkout already gives: 0o644 and 0o755.
abbrev pub default_file_mode : ℕ
default_file_mode = 420

abbrev pub default_dir_mode : ℕ
default_dir_mode = 493

pub record MetadataRecord : Type 0 where
  pub path : Bytes
  pub directory : Bool
  pub mode : ℕ
  pub uid : ℤ
  pub gid : ℤ

-- What `os.FileInfo` and `os.ReadDir` say of a path. `entries` is none where the directory is not read.
pub record FileInfo : Type 0 where
  pub is_dir : Bool
  pub is_regular : Bool
  pub perm : ℕ
  pub owner : ℤ
  pub group : ℤ
  pub entries : Option ℕ

abbrev same_id : ℤ → ℤ → Bool
same_id a b = leb_ℤ a b && leb_ℤ b a

unfoldable pub empty_directory : FileInfo → Bool
empty_directory info = elim info.entries [ none ↦ false | some n ↦ n == 0 ]

unfoldable pub path_record : Bytes → FileInfo → ℤ → ℤ → MetadataRecord × Bool
unfolding empty_directory
path_record name info uid gid =
    let one : MetadataRecord = record {
      path = name;
      directory = info.is_dir;
      mode = info.perm;
      uid = info.owner;
      gid = info.group;
    } in
    let own = not (same_id info.owner uid) || not (same_id info.group gid) in
    if info.is_dir
    then (one, not (info.perm == default_dir_mode) || own || empty_directory info)
    else if info.is_regular
    then (one, not (info.perm == default_file_mode) || own)
    else (one, false)

-- The callback of the walk: a path with a newline or a carriage return is recorded nowhere.
unfoldable pub visit : ℤ → ℤ → List (Bytes × FileInfo) → List MetadataRecord
unfolding path_record
visit uid gid [] = []
visit uid gid ((name, info) ∷ paths) =
    let records = visit uid gid paths in
    let (one, keep) = path_record name info uid gid in
    if contains_byte b'\n' name || contains_byte b'\r' name
    then records
    else if keep
    then one ∷ records
    else records

unfoldable pub place_record : MetadataRecord → List MetadataRecord → List MetadataRecord
place_record one [] = one ∷ []
place_record one (next ∷ records) =
    let later = place_record one records in
    if precedes one.path next.path then one ∷ next ∷ records else next ∷ later

-- `sort.Slice` by the path, which no two records share.
unfoldable pub sort_records : List MetadataRecord → List MetadataRecord
unfolding place_record
sort_records [] = []
sort_records (one ∷ records) = place_record one (sort_records records)

unfoldable pub walk_tree_metadata : ℤ → ℤ → List (Bytes × FileInfo) → List MetadataRecord
unfolding visit sort_records
walk_tree_metadata uid gid paths = sort_records (visit uid gid paths)
