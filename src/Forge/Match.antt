-- ===== src/Forge/Match.antt =====
-- match.go: the PersistentVolumes that a push moves, and the demand written on each. The API server
-- is two parameters: what a list answers (`none` where it is refused), and whether the patch of a
-- volume's annotation is accepted. A mark keeps the names that were patched, in order, refused ones
-- included, beside the count that the caller reads. `Team` has the theorems.
pub mod Team
use git_csi_driver.Prelude.{
  ℕ, suc, ◌+◌, Bool, true, false, not, ◌&&◌, ◌||◌, Option, none, some, List, [], ◌∷◌, ◌++◌,
  if◌then◌else◌,
}
use git_csi_driver.Prelude.Text.{Bytes, codes, same, is_empty}
use git_csi_driver.Prelude.Dict.{Dict, value_of}
use git_csi_driver.Attributes.{default_ref}
use git_csi_driver.Cluster.{AccessMode, CsiSource, PersistentVolume, driver_name}
use git_csi_driver.Forge.Url.{comparison_key}
use git_csi_driver.Forge.Payload.{Push}

unfoldable pub volume_ref : Dict Bytes → Bytes
volume_ref attributes =
    let ref = value_of (codes "ref") attributes in if is_empty ref then default_ref else ref

abbrev is_read_only_many : AccessMode → Bool
is_read_only_many AccessMode.read_only_many = true
is_read_only_many AccessMode.read_write_once = false
is_read_only_many AccessMode.read_write_many = false
is_read_only_many AccessMode.read_write_once_pod = false

-- The loop over the modes.
unfoldable pub all_read_only : List AccessMode → Bool
all_read_only [] = true
all_read_only (mode ∷ modes) = is_read_only_many mode && all_read_only modes

abbrev no_modes : List AccessMode → Bool
no_modes [] = true
no_modes (mode ∷ modes) = false

unfoldable pub read_only_claim_volume : PersistentVolume → Bool
unfolding all_read_only
read_only_claim_volume held = not (no_modes held.access_modes) && all_read_only held.access_modes

unfoldable pub ref_matches : Bytes → Bytes → Bool
ref_matches pushed followed =
    same pushed followed
    || same pushed (codes "refs/heads/" ++ followed)
    || same pushed (codes "refs/tags/" ++ followed)

-- The keys of the URLs, as the list of the set's members.
unfoldable pub comparison_keys : List Bytes → List Bytes
unfolding comparison_key
comparison_keys [] = []
comparison_keys (url ∷ urls) =
    let keys = comparison_keys urls in
    let key = comparison_key url in if is_empty key then keys else key ∷ keys

-- `keys[key]`
unfoldable pub holds_key : Bytes → List Bytes → Bool
holds_key key [] = false
holds_key key (k ∷ keys) = same k key || holds_key key keys

unfoldable pub follows_push : CsiSource → List Bytes → Bytes → Bool
follows_push source keys ref =
    let url = value_of (codes "url") source.attributes in
    not (is_empty url)
    && holds_key (comparison_key url) keys
    && ref_matches ref (volume_ref source.attributes)

abbrev pub is_driver : CsiSource → Bool
is_driver source = same source.driver driver_name

unfoldable pub matches_push : PersistentVolume → Bytes → Bytes → List Bytes → Bytes → Bool
matches_push held namespace secret keys ref = elim held.source [
  | none ↦ false
  | some source ↦
      is_driver source
      && same (value_of (codes "webhookSecret") source.attributes) secret
      && elim held.claim_ref [ none ↦ false | some claim ↦ same claim.namespace namespace ]
      && read_only_claim_volume held
      && follows_push source keys ref
]

-- The names patched, and how many patches were accepted.
pub record Marked : Type 0 where
  pub patched : List Bytes
  pub marked : ℕ

abbrev pub none_marked : Marked
none_marked = record { patched = []; marked = 0 }

module _ (patch : Bytes → Bool) where
  -- One round of the loop for a volume that is demanded.
  abbrev pub demand_one : Bytes → Marked → Marked
  demand_one name rest = record {
    patched = name ∷ rest.patched;
    marked = if patch name then suc rest.marked else rest.marked;
  }

  -- The loop of `mark`.
  unfoldable pub mark_each : Bytes → Bytes → List Bytes → Bytes → List PersistentVolume → Marked
  mark_each namespace secret keys ref [] = none_marked
  mark_each namespace secret keys ref (held ∷ volumes) =
      let rest = mark_each namespace secret keys ref volumes in
      if matches_push held namespace secret keys ref then demand_one held.name rest else rest

  unfoldable pub mark : Option (List PersistentVolume) → Bytes → Bytes → Push → Option Marked
  mark none namespace secret pushed = none
  mark (some volumes) namespace secret pushed =
      some (mark_each namespace secret (comparison_keys pushed.urls) pushed.ref volumes)

  abbrev restart_demands : PersistentVolume → Bool
  restart_demands held = elim held.source [
    | none ↦ false
    | some source ↦ is_driver source && read_only_claim_volume held
  ]

  -- The loop of `demandAll`, which a restart runs.
  unfoldable pub demand_each : List PersistentVolume → Marked
  demand_each [] = none_marked
  demand_each (held ∷ volumes) =
      let rest = demand_each volumes in
      if restart_demands held then demand_one held.name rest else rest

  unfoldable pub demand_all : Option (List PersistentVolume) → Marked
  demand_all none = none_marked
  demand_all (some volumes) = demand_each volumes
