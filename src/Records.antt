-- ===== src/Records.antt =====
-- records.go: what a restarted driver reads to find its volumes. A record is its value, as the JSON coder
-- is a parameter; the table of mounts is read in `Mounts`, the volumes are rebuilt in `Resume`.
pub mod Mounts
pub mod Resume
use git_csi_driver.Prelude.{Bool, true, false, List, [], ◌∷◌, if◌then◌else◌}
use git_csi_driver.Prelude.Text.{Bytes, codes, same}
use git_csi_driver.Prelude.Dict.{Dict}
use git_csi_driver.Volume.{
  Volume, VolumeKind, inline_volume, read_only_claim, writeable_volume, bound_targets,
}
use git_csi_driver.Volume.Credential.{needs_credential}

pub record Record : Type 0 where
  pub volume_id : Bytes
  pub attributes : Dict Bytes
  pub target : Bytes
  pub targets : List Bytes
  pub staging : Bytes
  pub ephemeral : Bool
  pub kind_name : Bytes
  pub credentials : Bool

-- A volume with what a record says and the volume's own operations do not read.
pub record StoredVolume : Type 0 where
  pub volume : Volume
  pub context : Dict Bytes
  pub target : Bytes
  pub staging : Bytes

abbrev pub kind_name_of : VolumeKind → Bytes
kind_name_of inline_volume = codes "inline"
kind_name_of read_only_claim = codes "readOnly"
kind_name_of writeable_volume = codes "writeable"

abbrev pub is_inline : VolumeKind → Bool
is_inline inline_volume = true
is_inline read_only_claim = false
is_inline writeable_volume = false

abbrev pub is_read_only_claim : VolumeKind → Bool
is_read_only_claim inline_volume = false
is_read_only_claim read_only_claim = true
is_read_only_claim writeable_volume = false

-- A record with no kind is read by its ephemeral flag.
unfoldable pub kind : Record → VolumeKind
kind r =
    if same r.kind_name (codes "inline")
    then inline_volume
    else if same r.kind_name (codes "readOnly")
    then read_only_claim
    else if same r.kind_name (codes "writeable")
    then writeable_volume
    else if r.ephemeral
    then inline_volume
    else writeable_volume

unfoldable pub target_paths : Record → List Bytes
unfolding kind
target_paths r = if is_read_only_claim (kind r) then r.targets else r.target ∷ []

-- What `record` writes.
unfoldable pub record_of : StoredVolume → Record
record_of s = record {
  volume_id = s.volume.id;
  attributes = s.context;
  target = s.target;
  targets = bound_targets s.volume;
  staging = s.staging;
  ephemeral = is_inline s.volume.kind;
  kind_name = kind_name_of s.volume.kind;
  credentials = needs_credential s.volume;
}
