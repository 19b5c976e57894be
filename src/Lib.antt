-- ===== src/Lib.antt =====
-- git-csi-driver is a CSI driver that mounts git repositories as volumes of Kubernetes. Its node plugin
-- fetches the repositories and places their trees, its controller answers the webhooks of the forges.
--
-- How the parts meet. A volume is described by its attributes (attributes.go, `Attributes`) and, where it
-- is writeable, by the class of its claim (policy.go, `Policy`). A forge posts a push to the controller
-- (webhook.go, `Forge.Webhook`), which verifies it with a team's Secret (verify.go, `Forge.Verify`), reads
-- it (payload.go, `Forge.Payload`) and writes a demand on the PersistentVolumes that it moves (match.go,
-- `Forge.Match` and `Forge.Url`). Each node reads the demands (demand.go, `Follow.Watch`), takes the new
-- ones (volume.go, `Volume`) and wakes the loop of the repository (follow.go, `Follow` and `Follow.Loop`),
-- which fetches for all of its volumes. A writeable volume's commits are pushed, rebased or sent to a side
-- branch (push.go, diverged.go and reconcile.go, `Push` and `Push.Reconcile`). A republish returns a
-- credential that a restart lost (republish.go, `Volume.Credential`). A git invocation reads the credential
-- from files that are written for it (credentials.go, `Volume.Credential.Files`).
--
-- A claim's class arms a volume (arming.go, `Arming`) and tells the watch of its tree (watch.go, `Watch` and
-- `Watch.Events`), which scans the tree when it has rested (`Watch.Scan`): it commits what the size guard
-- lets through (commit.go and worktree.go, `Commit`), with a record of what a checkout cannot carry
-- (metadata.go, `Metadata`), and pushes. A driver that starts again finds its volumes by their records and the
-- table of mounts (records.go, `Records`), and a sweep removes what nothing stages (sweep.go, `Sweep`). The
-- kubelet's calls of node.go stand in `Node`, with the fetch of a stage in `Node.Stage`, the mounts in
-- `Node.Publish` and the volumes that were staged (stage.go and readonly.go) in `Node.Staged`.
--
-- The stage of a writeable volume (stage.go) is `Node.Work` and the calls of the kubelet for a stage
-- `Node.Arrive`; the git commands of a work tree (worktree.go, and what push.go, reconcile.go and diverged.go
-- run) stand in `WorkTree`, whose `WorkTree.Interface` fills the records of operations that `Node.Work` and
-- `Push` use. `Store` names the files of the bare repositories and of the volumes (store.go, git.go) and places
-- a tree, with `Store.Tree` for the replacement of one tree by the next. The usage of a volume is
-- `Node.Stats`, the metrics (metrics.go) `Metrics`, and the command line, the controller's answers and the
-- identity (cli.go, controller.go, identity.go) `Plugin`. `Metadata.Replay` is the replay of the records of a
-- metadata file, and `Follow.Seen` what the watch of demand.go keeps of the volumes of the cluster.
-- `Events` has the Events about a volume (events.go).
--
-- How the model reads the code. A function of the source has the same name in snake case; a method takes
-- its receiver last and answers the new one. `Cluster` has the objects of the API, `Prelude` Go's strings,
-- maps, sorting and errors. A text is the list of its bytes, a map the list of its entries, a time the
-- nanoseconds since Go's zero time and a duration a signed number of nanoseconds; neither overflows here.
-- One operation under a lock is one function; interleavings are the steps of `Follow.Loop.Run` and the
-- lists of moments in `Volume.Demand`. The loops of the source walk
-- lists, so their models are structural; `rebaseAndRetry` counts its three attempts down, and the loop over
-- the events of inotify has the length of its buffer as fuel.
--
-- What stands as a parameter: time.ParseDuration, resource.ParseQuantity, time.Parse, HMAC-SHA-256, the
-- SHA-256 of a name, the JSON decoder, the flag package, the API server (`Forge.Webhook.Api`), git and the
-- remote (`Push.Git`, `Follow.Fetched`, `Commit.TreeGit`, `Metadata.Commit.MetadataGit`,
-- `WorkTree.WorkRun`, `Node.Work.WorkGit`), the file system, and the random draw of a retry.
--
-- What is not modelled: the gRPC and HTTP servers, the registration of the metrics and logs, which are
-- output; the informers, which are client-go's; mounts, files and git processes, whose answers are parameters.
pub mod Prelude
pub mod Attributes
pub mod Policy
pub mod Cluster
pub mod Forge
pub mod Volume
pub mod Follow
pub mod Metadata
pub mod Records
pub mod Store
pub mod Sweep
pub mod Arming
pub mod Commit
pub mod Metrics
pub mod Events
pub mod Watch
pub mod Node
pub mod Push
pub mod WorkTree
pub mod Plugin
pub mod Tests
