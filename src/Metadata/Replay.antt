-- ===== src/Metadata/Replay.antt =====
-- metadata.go: the replay of the records onto the file system `F`, with the calls that it makes. A path stands
-- for the path below the tree.
use git_csi_driver.Prelude.{
  ◌⊎◌, ℕ, ◌≡◌, Bool, true, false, not, ◌&&◌, Option, none, some, List, [], ◌∷◌, ◌++◌, if◌then◌else◌,
  ℤ,
}
use git_csi_driver.Prelude.Text.{Bytes}
use git_csi_driver.Metadata.{MetadataRecord}
use git_csi_driver.Metadata.Line.{parse_metadata_content}
use git_csi_driver.Metadata.Line.Local.{IsInside}
use git_csi_driver.Metadata.Paths.{dir_elements, join_elements, holding_all, records_under}

pub data FileCall : Type 0 where
  make_dirs change_mode : Bytes → ℕ → FileCall
  change_owner : Bytes → ℤ → ℤ → FileCall

abbrev pub path_of : FileCall → Bytes
path_of (make_dirs path mode) = path
path_of (change_mode path mode) = path
path_of (change_owner path uid gid) = path

abbrev pub changes_owner : FileCall → Bool
changes_owner (change_owner path uid gid) = true
changes_owner other = false

module _ {F : Type 0} (do_call : FileCall → F → F × Bool) where
  -- The file system after, and the calls so far, the first one first.
  abbrev pub Replaying : Type 0
  Replaying = F × List FileCall

  -- The owner of a record whose mode was changed.
  unfoldable pub replay_owner : Bool → MetadataRecord → F → Replaying
  replay_owner owners one f =
      let call = change_owner one.path one.uid one.gid in
      if owners then ((do_call call f).0, call ∷ []) else (f, [])

  unfoldable pub replay_mode : Bool → MetadataRecord → F → Replaying
  unfolding replay_owner
  replay_mode owners one f =
      let call = change_mode one.path one.mode in
      let (f', worked) = do_call call f in
      let (last, calls) = replay_owner owners one f' in
      if worked then (last, call ∷ calls) else (f', call ∷ [])

  unfoldable pub replay_one : Bool → MetadataRecord → F → Replaying
  unfolding replay_mode
  replay_one owners one f =
      let call = make_dirs one.path one.mode in
      let (f', made) = do_call call f in
      let (last, calls) = replay_mode owners one f' in
      if not one.directory
      then replay_mode owners one f
      else if made
      then (last, call ∷ calls)
      else (f', call ∷ [])

  unfoldable pub replay_records : Bool → List MetadataRecord → F → Replaying
  unfolding replay_one
  replay_records owners [] f = (f, [])
  replay_records owners (one ∷ records) f =
      let (f', calls) = replay_one owners one f in
      let (last, more) = replay_records owners records f' in (last, calls ++ more)

  -- `content` is what the file of the ref holds, where git shows it.
  unfoldable pub replay_metadata : Bool → Option Bytes → F → Replaying × Bool
  unfolding replay_records
  replay_metadata owners none f = ((f, []), false)
  replay_metadata owners (some content) f =
      (replay_records owners (parse_metadata_content content) f, true)

  unfoldable pub replay_metadata_for : Bool → List Bytes → Option Bytes → F → Replaying × Bool
  unfolding replay_records
  replay_metadata_for owners changed none f = ((f, []), false)
  replay_metadata_for owners changed (some content) f =
      (replay_records owners (records_under (parse_metadata_content content) changed) f, true)

  -- A call for a record of which `P` holds, and an owner only where the driver may set owners.
  abbrev CallFor : Bool → (MetadataRecord → Type 0) → FileCall → Type 0
  CallFor owners P call =
      (one : MetadataRecord) × (path_of call ≡ one.path)
      × P one
      × ((changes_owner call && not owners) ≡ false)

-- Is one of the list.
abbrev pub IsIn : {A : Type 0} → A → List A → Type 0
IsIn x [] = ⊥
IsIn x (y ∷ l) = (y ≡ x) ⊎ IsIn x l

abbrev pub records_in : Option Bytes → List MetadataRecord
records_in none = []
records_in (some content) = parse_metadata_content content

-- The path of the record is one that the update rewrote; or the record is a directory that holds such a path, or
-- one in a directory that does.
abbrev pub IsUpdated : List Bytes → MetadataRecord → Type 0
IsUpdated changed one =
    IsIn one.path changed
    ⊎ ((one.directory ≡ true)
        × (IsIn one.path (holding_all changed)
            ⊎ IsIn (join_elements (dir_elements one.path)) (holding_all changed)))

-- A record that the remote's file holds, of a path inside the tree, that an update selects.
abbrev pub MayTouch : List Bytes → Option Bytes → MetadataRecord → Type 0
MayTouch changed content one =
    IsInside one.path × IsIn one (records_in content) × IsUpdated changed one
