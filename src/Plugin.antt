-- ===== src/Plugin.antt =====
-- cli.go, controller.go and identity.go: the command line, and the calls of the controller and the identity
-- services.
--
-- The `flag` package is a parameter: from the names and the defaults of a set of flags and the arguments it
-- answers the value of each flag, or refuses. What the command writes, its signals and the server are left out.
use git_csi_driver.Prelude.{
  ℕ, Bool, true, false, Option, none, some, List, [], ◌∷◌, if◌then◌else◌, ℤ, pos, Result, err, ok,
  ◌>>=◌, unimplemented,
}
use git_csi_driver.Prelude.Text.{Bytes, codes, same, is_empty, has_prefix}
use git_csi_driver.Prelude.Dict.{Dict, value_of}
use git_csi_driver.Policy.{parse_policy}

pub record Config : Type 0 where
  pub endpoint : Bytes
  pub node_id : Bytes
  pub store : Bytes
  pub metrics : Bytes
  pub sweep_after : ℤ
  pub demand_min : ℤ
  pub webhook : Bytes
  pub is_controller : Bool

-- What a command line asks for: a run, the version alone, or nothing, for its problem.
pub data Parsed : Type 0 where
  runs : Config → Parsed
  shows_version : Parsed
  refuses : Parsed

abbrev default_store : Bytes
default_store = codes "/var/lib/liken/pod-storage/git-csi"

abbrev default_endpoint : Bytes
default_endpoint = codes "unix:///csi/csi.sock"

module _ (parse_flags : Dict Bytes → List Bytes → Option (Dict Bytes))
    (parse_duration : Bytes → Option ℤ) where
  -- `flags.Duration`, past the parse of the flags, which refuses what is no duration.
  abbrev duration_of : Bytes → Dict Bytes → ℤ
  duration_of name values = elim (parse_duration (value_of name values)) [
    | none ↦ pos 0
    | some d ↦ d
  ]

  unfoldable pub parse_bare : List Bytes → Parsed
  parse_bare args = elim (parse_flags ((codes "version", codes "false") ∷ []) args) [
    | none ↦ refuses
    | some values ↦
        if same (value_of (codes "version") values) (codes "true") then shows_version else refuses
  ]

  abbrev node_config : Dict Bytes → Config
  node_config values = record {
    endpoint = value_of (codes "endpoint") values;
    node_id = value_of (codes "node-id") values;
    store = value_of (codes "store") values;
    metrics = value_of (codes "metrics") values;
    sweep_after = duration_of (codes "sweep-after") values;
    demand_min = duration_of (codes "demand-min-interval") values;
    webhook = [];
    is_controller = false;
  }

  unfoldable pub parse_node : List Bytes → Parsed
  parse_node args =
      let flags =
        (codes "endpoint", default_endpoint)
        ∷ (codes "node-id", codes "")
        ∷ (codes "store", default_store)
        ∷ (codes "metrics", codes ":9200")
        ∷ (codes "sweep-after", codes "720h0m0s")
        ∷ (codes "demand-min-interval", codes "10s")
        ∷ [] in
      elim (parse_flags flags args) [
        | none ↦ refuses
        | some values ↦
            if is_empty (value_of (codes "node-id") values)
            then refuses
            else runs (node_config values)
      ]

  unfoldable pub parse_controller : List Bytes → Parsed
  parse_controller args =
      let flags =
        (codes "endpoint", default_endpoint)
        ∷ (codes "metrics", codes ":9200")
        ∷ (codes "webhook", codes ":8080")
        ∷ [] in
      elim (parse_flags flags args) [
        | none ↦ refuses
        | some values ↦ runs (record {
          endpoint = value_of (codes "endpoint") values;
          node_id = [];
          store = default_store;
          metrics = value_of (codes "metrics") values;
          sweep_after = pos 0;
          demand_min = pos 0;
          webhook = value_of (codes "webhook") values;
          is_controller = true;
        })
      ]

  unfoldable pub parse : List Bytes → Parsed
  unfolding parse_node parse_controller parse_bare has_prefix
  parse [] = refuses
  parse (first ∷ args) =
      if same first (codes "node")
      then parse_node args
      else if same first (codes "controller")
      then parse_controller args
      else if has_prefix (codes "-") first
      then parse_bare (first ∷ args)
      else refuses

-- The exit code of `runWith`, with how the server was built and how it served.
unfoldable pub exit_code : Parsed → Bool → Bool → ℕ
exit_code refuses is_built served = 1
exit_code shows_version is_built served = 0
exit_code (runs config) false served = 1
exit_code (runs config) true false = 1
exit_code (runs config) true true = 0

-- The calls of the controller service.
pub data ControllerCall : Type 0 where
  get_capabilities : ControllerCall
  modify_volume : Dict Bytes → ControllerCall
  create_volume delete_volume publish_volume unpublish_volume validate_capabilities : ControllerCall
  list_volumes get_capacity create_snapshot delete_snapshot list_snapshots get_snapshot :
      ControllerCall
  expand_volume get_volume : ControllerCall

-- What an answer that is no error declares.
pub data Declared : Type 0 where
  modifies_volumes has_controller nothing : Declared

abbrev pub unimplemented_call : Bytes → Result Declared
unimplemented_call name = err (record { code = unimplemented; subject = name })

module _ (parse_duration parse_quantity : Bytes → Option ℤ) where
  -- `ControllerModifyVolume` reads the parameters and keeps none of them.
  unfoldable pub answer_controller : ControllerCall → Result Declared
  unfolding parse_policy
  answer_controller get_capabilities = ok modifies_volumes
  answer_controller (modify_volume parameters) =
      parse_policy parse_duration parse_quantity parameters >>= λ rules. ok nothing
  answer_controller create_volume = unimplemented_call (codes "CreateVolume")
  answer_controller delete_volume = unimplemented_call (codes "DeleteVolume")
  answer_controller publish_volume = unimplemented_call (codes "ControllerPublishVolume")
  answer_controller unpublish_volume = unimplemented_call (codes "ControllerUnpublishVolume")
  answer_controller validate_capabilities = unimplemented_call (codes "ValidateVolumeCapabilities")
  answer_controller list_volumes = unimplemented_call (codes "ListVolumes")
  answer_controller get_capacity = unimplemented_call (codes "GetCapacity")
  answer_controller create_snapshot = unimplemented_call (codes "CreateSnapshot")
  answer_controller delete_snapshot = unimplemented_call (codes "DeleteSnapshot")
  answer_controller list_snapshots = unimplemented_call (codes "ListSnapshots")
  answer_controller get_snapshot = unimplemented_call (codes "GetSnapshot")
  answer_controller expand_volume = unimplemented_call (codes "ControllerExpandVolume")
  answer_controller get_volume = unimplemented_call (codes "ControllerGetVolume")

unfoldable plugin_capabilities : Config → List Declared
plugin_capabilities config = if config.is_controller then has_controller ∷ [] else []

-- `storeIsWriteable`, where `create` makes the file of the probe and `remove` takes it away.
unfoldable probe : {F : Type 0} → (F → F × Bool) → (F → F) → F → F × Bool
probe create remove f = let (f', made) = create f in if made then (remove f', true) else (f', false)
