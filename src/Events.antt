-- ===== src/Events.antt =====
-- events.go: the Events that the driver posts about a volume, with the callers of node.go, readonly.go, follow.go
-- and republish.go. What is posted is the list of the Events that the API server gets, in order; its answer
-- changes nothing.
use git_csi_driver.Prelude.{ℕ, Bool, true, false, ◌||◌, List, [], ◌∷◌, ◌++◌, if◌then◌else◌}
use git_csi_driver.Prelude.Text.{Bytes, codes, is_empty}
use git_csi_driver.Attributes.{PodReference}
use git_csi_driver.Cluster.{ClaimReference, driver_name}
use git_csi_driver.Volume.{
  Volume, VolumeKind, inline_volume, read_only_claim, writeable_volume, writeable, bound_pods,
  report_trouble,
}
use git_csi_driver.Volume.Credential.{report_no_publish_secret}

-- `corev1.ObjectReference`
pub record ObjectReference : Type 0 where
  pub kind : Bytes
  pub version : Bytes
  pub name : Bytes
  pub namespace : Bytes
  pub uid : Bytes

-- A fact to post: the type of the Event, its reason and its message.
pub record Fact : Type 0 where
  pub kind : Bytes
  pub reason : Bytes
  pub message : Bytes

pub record Event : Type 0 where
  pub generate_name : Bytes
  pub namespace : Bytes
  pub involved : ObjectReference
  pub fact : Fact
  pub component : Bytes
  pub host : Bytes
  pub first_timestamp : ℕ
  pub last_timestamp : ℕ
  pub count : ℕ

abbrev warning : Bytes
warning = codes "Warning"

-- The text of a volume that no publish can return its credential to.
abbrev no_secret_text : Bytes
no_secret_text =
    codes "the PersistentVolume names nodeStageSecretRef and no nodePublishSecretRef, so th"
    ++ codes "e driver cannot take this volume's credential back after it restarts; create the"
    ++ codes " PersistentVolume again with nodePublishSecretRef equal to nodeStageSecretRef"

abbrev is_claim : VolumeKind → Bool
is_claim inline_volume = false
is_claim read_only_claim = true
is_claim writeable_volume = false

-- `has_client` is false for a driver outside a cluster; the clock is read at `now`.
module _ (has_client : Bool) (node : Bytes) (now : ℕ) where
  unfoldable pub create : ObjectReference → Fact → List Event
  create involved fact =
      if has_client
      then record {
        generate_name = involved.name ++ codes ".";
        namespace = involved.namespace;
        involved = involved;
        fact = fact;
        component = driver_name;
        host = node;
        first_timestamp = now;
        last_timestamp = now;
        count = 1;
      }
        ∷ []
      else []

  unfoldable pub post : PodReference → Fact → List Event
  unfolding create
  post pod fact =
      if is_empty pod.name || is_empty pod.namespace
      then []
      else create
          (record {
            kind = codes "Pod";
            version = codes "v1";
            name = pod.name;
            namespace = pod.namespace;
            uid = pod.uid;
          })
          fact

  unfoldable pub post_claim : ClaimReference → Fact → List Event
  unfolding create
  post_claim claim fact =
      if is_empty claim.name || is_empty claim.namespace
      then []
      else create
          (record {
            kind = codes "PersistentVolumeClaim";
            version = codes "v1";
            name = claim.name;
            namespace = claim.namespace;
            uid = [];
          })
          fact

  -- The loop of `tell` over the pods.
  unfoldable pub post_each : List PodReference → Fact → List Event
  unfolding post
  post_each [] fact = []
  post_each (pod ∷ pods) fact = post pod fact ++ post_each pods fact

  unfoldable pub tell : Volume → Fact → List Event
  unfolding post_each post_claim
  tell held fact =
      if is_claim held.kind
      then post_each (bound_pods held) fact ++ post_claim held.claim fact
      else post held.pod fact

  unfoldable pub report : Volume → ClaimReference → Fact → List Event
  unfolding post post_claim
  report held claim fact = post held.pod fact ++ post_claim claim fact

  unfoldable pub refused : PodReference → Bytes → List Event
  unfolding post
  refused pod message =
      post pod (record { kind = warning; reason = codes "GitVolumeRefused"; message = message })

  unfoldable pub refused_claim : Volume → Bytes → List Event
  unfolding post_claim
  refused_claim held message =
      post_claim held.claim
        (record { kind = warning; reason = codes "GitVolumeRefused"; message = message })

  -- The follower's `trouble`, with the volume after it.
  unfoldable pub trouble : Bytes → Volume → Volume × List Event
  unfolding tell
  trouble message held =
      let (v, first) = report_trouble message held in
      let told =
        tell v (record { kind = warning; reason = codes "GitFetchFailed"; message = message }) in
      (v, if first then told else [])

  -- The volume after it, whether the Events were posted, and they.
  unfoldable pub no_publish_secret : Volume → (Volume × Bool) × List Event
  unfolding tell post_claim report_no_publish_secret
  no_publish_secret held =
      let (v, first) = report_no_publish_secret held in
      let fact : Fact = record {
        kind = warning;
        reason = codes "GitVolumeNoPublishSecret";
        message = no_secret_text;
      } in
      let claimed = if writeable v then post_claim v.claim fact else [] in
      ((v, first), if first then tell v fact ++ claimed else [])
