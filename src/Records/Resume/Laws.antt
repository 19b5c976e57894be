-- ===== src/Records/Resume/Laws.antt =====
-- records.go: a volume that was recorded and resumed is recorded alike.
use git_csi_driver.Prelude.{
  ℕ, ◌≡◌, refl, sym, ap, ◌∙◌, inl, inr, Bool, true, false, ◌||◌, Option, none, some, List, [], ◌∷◌,
  ◌++◌, map, append-nil, append_assoc, arith, Bool-cases, if-either, is_some, All, weaken_All, ℤ,
  ok,
}
use mathlib.Core.Path.{subst}
use git_csi_driver.Prelude.Text.{Bytes, same, same_iff}
use git_csi_driver.Prelude.Dict.{Dict, lookup, insert, lookup-insert_self}
use git_csi_driver.Prelude.Dict.Order.{IsDistinct}
use git_csi_driver.Prelude.Sort.{sort}
use git_csi_driver.Prelude.Sort.Ascending.{
  IsAscending, IsBefore, AreDistinct, sort-IsAscending, sort_ascending,
}
use git_csi_driver.Attributes.{Attributes, PodReference, no_pod, parse_volume_context}
use git_csi_driver.Cluster.{ClaimReference}
use git_csi_driver.Volume.{
  Credentials, Volume, VolumeKind, inline_volume, read_only_claim, writeable_volume, bind,
  bound_targets, take_health, answer_demands_before,
}
use git_csi_driver.Volume.Credential.{needs_credential}
use git_csi_driver.Records.{
  Record, StoredVolume, kind, target_paths, record_of, is_read_only_claim, kind_name_of, is_inline,
}
use git_csi_driver.Records.Resume.{
  mounted_targets, bind_each, find_claim, bound, lost, fresh_volume, resumed_volume, resume_one,
  resume_entry, start, Node,
}

abbrev keys : Dict PodReference → List Bytes
keys m = map (λ entry. entry.0) m

absent-All :
    (k : Bytes) (m : Dict PodReference) → lookup k m ≡ none → All (λ t. same k t ≡ false) (keys m)
unfolding lookup
absent-All k [] e = tt
absent-All k ((j, v) ∷ m) e =
    (ground (arith, same_iff k j, same_iff j k), absent-All k m (ground arith))

keys-AreDistinct : (m : Dict PodReference) → IsDistinct m → AreDistinct (keys m)
keys-AreDistinct [] d = tt
keys-AreDistinct ((k, v) ∷ m) d = (absent-All k m d.0, keys-AreDistinct m d.1)

bound_targets-IsAscending : (v : Volume) → IsDistinct v.targets → IsAscending (bound_targets v)
unfolding bound_targets
bound_targets-IsAscending v d = sort-IsAscending (keys v.targets) (keys-AreDistinct v.targets d)

mounted_targets-All :
    (mounted : Bytes → Bool) (P : Bytes → Type 0) (l : List Bytes)
    → All P l
    → All P (mounted_targets mounted l)
unfolding mounted_targets
mounted_targets-All mounted P [] h = tt
mounted_targets-All mounted P (t ∷ l) h = elim (Bool-cases (mounted t)) [
  | inl held ↦ rw held (h.0, mounted_targets-All mounted P l h.1)
  | inr gone ↦ rw gone (mounted_targets-All mounted P l h.1)
]

mounted_targets-IsAscending :
    (mounted : Bytes → Bool) (l : List Bytes)
    → IsAscending l
    → IsAscending (mounted_targets mounted l)
unfolding mounted_targets
mounted_targets-IsAscending mounted [] h = tt
mounted_targets-IsAscending mounted (t ∷ l) h = elim (Bool-cases (mounted t)) [
  | inl held ↦
      rw held
        (mounted_targets-All mounted (IsBefore t) l h.0, mounted_targets-IsAscending mounted l h.1)
  | inr gone ↦ rw gone (mounted_targets-IsAscending mounted l h.1)
]

insert-keys :
    (t : Bytes) (pod : PodReference) (m : Dict PodReference)
    → All (λ k. same k t ≡ false) (keys m)
    → keys (insert t pod m) ≡ keys m ++ t ∷ []
unfolding insert
insert-keys t pod [] h = refl
insert-keys t pod ((k, v) ∷ m) h = rw h.0 (ap (λ l. k ∷ l) (insert-keys t pod m h.1))

All-middle : (P : Bytes → Type 0) (ks l : List Bytes) (t : Bytes) → All P (ks ++ t ∷ l) → P t
All-middle P [] l t h = h.0
All-middle P (k ∷ ks) l t h = All-middle P ks l t h.1

before_middle :
    (ks l : List Bytes) (t : Bytes) → AreDistinct (ks ++ t ∷ l) → All (λ k. same k t ≡ false) ks
before_middle [] l t d = tt
before_middle (k ∷ ks) l t d =
    (All-middle (λ u. same k u ≡ false) ks l t d.0, before_middle ks l t d.1)

-- Targets bound one after the other stand in that order behind the ones before.
bind_each-keys :
    (l : List Bytes) (v : Volume)
    → AreDistinct (keys v.targets ++ l)
    → keys (bind_each l v).targets ≡ keys v.targets ++ l
unfolding bind_each bind
bind_each-keys [] v d = sym (append-nil (keys v.targets))
bind_each-keys (t ∷ l) v d =
    let one = insert-keys t no_pod v.targets (before_middle (keys v.targets) l t d) in
    let all = append_assoc (keys v.targets) (t ∷ []) l in
    let distinct = subst AreDistinct (sym (ap (λ ks. ks ++ l) one ∙ all)) d in
    bind_each-keys l (bind t no_pod v) distinct ∙ ap (λ ks. ks ++ l) one ∙ all

IsAscending-AreDistinct : (l : List Bytes) → IsAscending l → AreDistinct l
IsAscending-AreDistinct [] h = tt
IsAscending-AreDistinct (t ∷ l) h = (weaken_All (λ u b. b.1) l h.0, IsAscending-AreDistinct l h.1)

kind_named : (k : VolumeKind) (r : Record) → r.kind_name ≡ kind_name_of k → kind r ≡ k
unfolding kind same
kind_named inline_volume r e = rw e refl
kind_named read_only_claim r e = rw e refl
kind_named writeable_volume r e = rw e refl

-- What the record of a volume takes from it, but the targets.
abbrev traits : Volume → Bytes × VolumeKind × Option Credentials × Bool × Attributes
traits v = (v.id, v.kind, v.credentials, v.credential_lost, v.attributes)

bind_each-traits : (l : List Bytes) (v : Volume) → traits (bind_each l v) ≡ traits v
unfolding bind_each bind
bind_each-traits [] v = refl
bind_each-traits (t ∷ l) v = bind_each-traits l (bind t no_pod v)

bound-traits :
    (k : VolumeKind) (claim : Option ClaimReference) (l : List Bytes) (v : Volume)
    → traits (bound k claim l v) ≡ traits v
unfolding bound find_claim
bound-traits read_only_claim none l v = bind_each-traits l v
bound-traits read_only_claim (some claim) l v = bind_each-traits l v
bound-traits inline_volume claim l v = refl
bound-traits writeable_volume claim l v = refl

abbrev when_read_only : VolumeKind → List Bytes → List Bytes
when_read_only inline_volume l = []
when_read_only read_only_claim l = l
when_read_only writeable_volume l = []

bind_each-targets :
    (l : List Bytes) (v : Volume)
    → v.targets ≡ []
    → IsAscending l
    → bound_targets (bind_each l v) ≡ l
unfolding bound_targets
bind_each-targets l v e h =
    let before = ap (λ m. keys m ++ l) e in
    let distinct = subst AreDistinct (sym before) (IsAscending-AreDistinct l h) in
    ap sort (bind_each-keys l v distinct ∙ before) ∙ sort_ascending l h

-- A volume with no targets is bound at the targets given, in their order, if it is read-only.
bound-targets :
    (k : VolumeKind) (claim : Option ClaimReference) (l : List Bytes) (v : Volume)
    → v.targets ≡ []
    → IsAscending l
    → bound_targets (bound k claim l v) ≡ when_read_only k l
unfolding bound bound_targets find_claim sort
bound-targets read_only_claim none l v e h = bind_each-targets l v e h
bound-targets read_only_claim (some claim) l v e h = bind_each-targets l v e h
bound-targets inline_volume claim l v e h = rw e refl
bound-targets writeable_volume claim l v e h = rw e refl

lost-traits :
    (b : Bool) (id directory : Bytes) (parsed : Attributes) (k : VolumeKind)
    → (traits (lost b (fresh_volume id parsed k directory)) ≡ (id, k, none, b, parsed))
      × ((lost b (fresh_volume id parsed k directory)).targets ≡ [])
lost-traits true id directory parsed k = (refl, refl)
lost-traits false id directory parsed k = (refl, refl)

-- The targets of a record that a start keeps.
abbrev pub kept_targets : (Bytes → Bool) → StoredVolume → List Bytes
kept_targets mounted s =
    when_read_only s.volume.kind (mounted_targets mounted (target_paths (record_of s)))

kind-record_of : (s : StoredVolume) → kind (record_of s) ≡ s.volume.kind
unfolding record_of
kind-record_of s = kind_named s.volume.kind (record_of s) refl

target_paths-IsAscending :
    (s : StoredVolume) → IsDistinct s.volume.targets → IsAscending (target_paths (record_of s))
unfolding target_paths record_of
target_paths-IsAscending s d =
    if-either IsAscending (is_read_only_claim (kind (record_of s)))
      (λ many. bound_targets-IsAscending s.volume d) (λ single. (tt, tt))

recorded_id : (s : StoredVolume) → (record_of s).volume_id ≡ s.volume.id
unfolding record_of
recorded_id s = refl

-- The record of a volume with these traits and targets.
abbrev record_with :
    StoredVolume → Bytes × VolumeKind × Option Credentials × Bool × Attributes → List Bytes → Record
record_with s (id, k, credentials, waits, parsed) l = record {
  volume_id = id;
  attributes = s.context;
  target = s.target;
  targets = l;
  staging = s.staging;
  ephemeral = is_inline k;
  kind_name = kind_name_of k;
  credentials = is_some credentials || waits;
}

module _ (parse_duration : Bytes → Option ℤ) (mounted : Bytes → Bool)
    (claim_of : Bytes → Option ClaimReference) (placed_commit : Bytes → Bytes)
    (work_head : Bytes → Option Bytes) (now : ℕ) where
  resumed-traits :
      (held : Record) (parsed : Attributes) (directory : Bytes) (l : List Bytes)
      → traits (
          resumed_volume parse_duration mounted claim_of placed_commit work_head now held parsed
            directory l)
        ≡ (held.volume_id, kind held, none, held.credentials, parsed)
  unfolding resumed_volume take_health answer_demands_before
  resumed-traits held parsed directory l =
      let v =
        lost held.credentials
          (fresh_volume held.volume_id parsed (kind held) (placed_commit directory)) in
      bound-traits (kind held) (claim_of held.volume_id) l v
      ∙ (lost-traits held.credentials held.volume_id (placed_commit directory) parsed (kind held)).0

  resumed-targets :
      (held : Record) (parsed : Attributes) (directory : Bytes) (l : List Bytes)
      → IsAscending l
      → bound_targets (
          resumed_volume parse_duration mounted claim_of placed_commit work_head now held parsed
            directory l)
        ≡ when_read_only (kind held) l
  unfolding resumed_volume take_health answer_demands_before bound_targets
  resumed-targets held parsed directory l h =
      let v =
        lost held.credentials
          (fresh_volume held.volume_id parsed (kind held) (placed_commit directory)) in
      bound-targets (kind held) (claim_of held.volume_id) l v
        (lost-traits held.credentials held.volume_id (placed_commit directory) parsed (kind held)).1
        h

  abbrev mounted_of : StoredVolume → List Bytes
  mounted_of s = mounted_targets mounted (target_paths (record_of s))

  abbrev resumed : StoredVolume → Bytes → StoredVolume
  resumed s directory = record s {
    volume =
        resumed_volume parse_duration mounted claim_of placed_commit work_head now (record_of s)
          s.volume.attributes directory (mounted_of s);
  }

  record_of-resumed :
      (s : StoredVolume) (directory : Bytes)
      → IsDistinct s.volume.targets
      → record_of (resumed s directory) ≡ record (record_of s) { targets = kept_targets mounted s }
  unfolding record_of
  record_of-resumed s directory d =
      let l = mounted_of s in
      let ascends = mounted_targets-IsAscending mounted _ (target_paths-IsAscending s d) in
      ap (λ t. record_with s t (bound_targets (resumed s directory).volume))
        (resumed-traits (record_of s) s.volume.attributes directory l)
      ∙ ap
          (λ k.
            record_with s (s.volume.id, k, none, needs_credential s.volume, s.volume.attributes)
              (bound_targets (resumed s directory).volume))
          (kind-record_of s)
      ∙ ap
          (record_with s
            (s.volume.id, s.volume.kind, none, needs_credential s.volume, s.volume.attributes))
          (resumed-targets (record_of s) s.volume.attributes directory l ascends
            ∙ ap (λ k. when_read_only k l) (kind-record_of s))

  start-record_of :
      (k : VolumeKind) (waits : Bool) (s : StoredVolume) (n : Node)
      → (s' : StoredVolume) × (lookup s.volume.id
            (start parse_duration mounted claim_of placed_commit work_head now k waits s n).volumes
          ≡ some s')
        × (record_of s' ≡ record_of s)
        × (s'.volume.attributes ≡ s.volume.attributes)
  unfolding start record_of bound_targets
  start-record_of read_only_claim waits s n = (s, lookup-insert_self _ _ n.volumes, refl, refl)
  start-record_of inline_volume waits s n = (s, lookup-insert_self _ _ n.volumes, refl, refl)
  start-record_of writeable_volume waits s n = (_, lookup-insert_self _ _ n.volumes, refl, refl)

  -- The node has a volume of that id whose record differs from the volume's in the targets it keeps.
  abbrev IsFound : StoredVolume → Node → Type 0
  IsFound s n =
      (s' : StoredVolume) × (lookup s.volume.id n.volumes ≡ some s')
      × (record_of s' ≡ record (record_of s) { targets = kept_targets mounted s })
      × (s'.volume.attributes ≡ s.volume.attributes)

  abbrev started : StoredVolume → Bytes → Node → Node
  started s directory n =
      start parse_duration mounted claim_of placed_commit work_head now (kind (record_of s))
        (record_of s).credentials (resumed s directory) n

  resume_one-start :
      (s : StoredVolume) (directory : Bytes) (n : Node)
      → parse_volume_context parse_duration s.context ≡ ok s.volume.attributes
      → resume_one parse_duration mounted claim_of placed_commit work_head now
          (record_of s)
          directory
          (mounted_of s)
          n
        ≡ started s directory n
  unfolding resume_one record_of
  resume_one-start s directory n e = rw (resume_one, e) refl

  resume_one-record_of :
      (s : StoredVolume) (directory : Bytes) (n : Node)
      → parse_volume_context parse_duration s.context ≡ ok s.volume.attributes
      → IsDistinct s.volume.targets
      → IsFound s (
          resume_one parse_duration mounted claim_of placed_commit work_head now
            (record_of s)
            directory
            (mounted_of s)
            n)
  resume_one-record_of s directory n e d =
      let parts = resumed-traits (record_of s) s.volume.attributes directory (mounted_of s) in
      let (s', found, recorded, parsed) =
        start-record_of (kind (record_of s)) (record_of s).credentials (resumed s directory) n in
      let at : (resumed s directory).volume.id ≡ s.volume.id =
        ap (λ t. t.0) parts ∙ recorded_id s in
      (
        s',
        ap (λ m. lookup s.volume.id m.volumes) (resume_one-start s directory n e)
            ∙ ap (λ i. lookup i (started s directory n).volumes) (sym at)
            ∙ found,
        recorded ∙ record_of-resumed s directory d,
        parsed ∙ ap (λ t. t.4) parts,
      )

  resume_one_mounted :
      (held : Record) (directory t : Bytes) (rest l : List Bytes) (n : Node)
      → l ≡ t ∷ rest
      → resume_one parse_duration mounted claim_of placed_commit work_head now held directory l n
        ≡ resume_entry parse_duration mounted claim_of placed_commit work_head now held directory l
            n
  unfolding resume_entry
  resume_one_mounted held directory t rest l n e = rw e refl

  -- A volume that was recorded and is mounted somewhere is found again by its id after the driver starts,
  -- where its context is read as its attributes and no target stands twice in its map: it has those
  -- attributes and the same record but for the targets that are not mounted any more, so it keeps its kind
  -- and its paths, and needs a credential exactly if it needed one.
  pub resume_entry-record_of :
      (s : StoredVolume) (directory t : Bytes) (rest : List Bytes) (n : Node)
      → parse_volume_context parse_duration s.context ≡ ok s.volume.attributes
      → IsDistinct s.volume.targets
      → mounted_of s ≡ t ∷ rest
      → IsFound s (
          resume_entry parse_duration mounted claim_of placed_commit work_head now
            (record_of s)
            directory
            (mounted_of s)
            n)
  resume_entry-record_of s directory t rest n e d some_mounted =
      subst (IsFound s)
        (resume_one_mounted (record_of s) directory t rest (mounted_of s) n some_mounted)
        (resume_one-record_of s directory n e d)
