-- ===== src/Follow/Watch.antt =====
-- `demanding` of demand.go, which reads the demands from the PersistentVolumes, and the loops of the
-- node: `follow` and `unfollow` of follow.go.
--
-- `parse_time` stands for `time.Parse` with RFC 3339, and `name_of` for the name of a URL's
-- repository in the node's cache.
use git_csi_driver.Prelude.{
  ℕ, ◌≡◌, refl, sym, ap, ◌∙◌, inl, inr, Bool, true, false, not, Option, none, some, [], ◌∷◌, ◌==◌,
  if◌then◌else◌, if-either, arith, Bool-cases, Option-cases,
}
use git_csi_driver.Prelude.Text.{Bytes, codes, is_empty}
use git_csi_driver.Prelude.Dict.{Dict, lookup, insert, remove, value_of}
use git_csi_driver.Cluster.{PersistentVolume}
use git_csi_driver.Forge.Match.{is_driver}
use git_csi_driver.Attributes.{follows}
use git_csi_driver.Volume.{Volume, writeable, take_demand}
use git_csi_driver.Follow.{Store, store_at, Follower, demand, add, remove_volume}

pub record Node : Type 0 where
  pub store : Store
  -- The addresses of the staged volumes, by handle.
  pub staged : Dict ℕ
  -- The loops, by the repository's name.
  pub followers : Dict Follower
  -- The last demand that was read, by handle.
  pub seen : Dict ℕ

abbrev pub new_follower : Follower
new_follower = record {
  volumes = [];
  wanted = [];
  last_pull = 0;
  backoff = 0;
  demanded = false;
  arrived = false;
}

unfoldable pub volume_handle : PersistentVolume → Option Bytes
volume_handle held = elim held.source [
  | none ↦ none
  | some source ↦ if is_driver source then some source.volume_handle else none
]

abbrev no_volumes : Dict ℕ → Bool
no_volumes [] = true
no_volumes (e ∷ m) = false

module _ (name_of : Bytes → Bytes) where
  unfoldable pub loop_name : ℕ → Node → Bytes
  loop_name a n = name_of (n.store a).attributes.url

  unfoldable pub follow : ℕ → Node → Node
  follow a n =
      if not (follows (n.store a).attributes.pull.mode)
      then n
      else elim (lookup (loop_name a n) n.followers) [
        | none ↦ record n {
          followers = insert (loop_name a n) (add (n.store a).id a new_follower) n.followers;
        }
        | some f ↦ record n {
          followers = insert (loop_name a n) (add (n.store a).id a f) n.followers;
        }
      ]

  unfoldable pub unfollow : ℕ → Node → Node
  unfollow a n =
      if not (follows (n.store a).attributes.pull.mode)
      then n
      else elim (lookup (loop_name a n) n.followers) [
        | none ↦ n
        | some f ↦
            let left = remove_volume (n.store a).id f in
            if no_volumes left.volumes
            then record n { followers = remove (loop_name a n) n.followers }
            else record n { followers = insert (loop_name a n) left n.followers }
      ]

  -- The node's `demand`.
  unfoldable pub node_demand : ℕ → ℕ → Node → Node
  node_demand at a n =
      if not (follows (n.store a).attributes.pull.mode)
      then n
      else elim (lookup (loop_name a n) n.followers) [
        | none ↦ n
        | some f ↦
            let (store, f') = demand at a n.store f in
            record n { store = store; followers = insert (loop_name a n) f' n.followers }
      ]

  -- The demand of a staged volume. The clock is read at `now`.
  unfoldable pub act_on_staged : ℕ → ℕ → ℕ → Node → Node
  act_on_staged at now a n =
      let (v, taken) = take_demand at now (n.store a) in
      let n' = record n { store = store_at a v n.store } in
      if not taken then n else if writeable v then n' else node_demand now a n'

  unfoldable pub act_on : Bytes → ℕ → ℕ → Node → Node
  act_on handle at now n = elim (lookup handle n.staged) [
    | none ↦ n
    | some a ↦ act_on_staged at now a n
  ]

  unfoldable pub arrived : Bytes → ℕ → Node → Node
  arrived handle now n = elim (lookup handle n.seen) [ none ↦ n | some at ↦ act_on handle at now n ]

  module _ (parse_time : Bytes → Option ℕ) where
    unfoldable pub read : ℕ → PersistentVolume → Node → Node
    read now held n = elim (volume_handle held) [
      | none ↦ n
      | some handle ↦
          let asked = value_of (codes "git.liken.sh/pull-requested-at") held.annotations in
          if is_empty asked then n else elim (parse_time asked) [
            | none ↦ n
            | some at ↦ act_on handle at now (record n { seen = insert handle at n.seen })
          ]
    ]

  demand-taken :
      (at a : ℕ) (store : Store) (f : Follower)
      → ((demand at a store f).0 a).taken ≡ (store a).taken
  unfolding demand store_at
  demand-taken at a store f = ground arith

  node_demand-taken :
      (at a : ℕ) (n : Node) → ((node_demand at a n).store a).taken ≡ (n.store a).taken
  unfolding node_demand
  node_demand-taken at a n =
      if-either {A = Node} (λ m. (m.store a).taken ≡ (n.store a).taken)
        (not (follows (n.store a).attributes.pull.mode)) (λ out. refl)
        (λ joined. elim (Option-cases (lookup (loop_name a n) n.followers)) [
          | inl absent ↦ rw absent refl
          | inr (f, found) ↦ rw found (demand-taken at a n.store f)
        ])

  node_demand-staged : (at a : ℕ) (n : Node) → (node_demand at a n).staged ≡ n.staged
  unfolding node_demand
  node_demand-staged at a n =
      if-either {A = Node} (λ m. m.staged ≡ n.staged)
        (not (follows (n.store a).attributes.pull.mode)) (λ out. refl)
        (λ joined. elim (Option-cases (lookup (loop_name a n) n.followers)) [
          | inl absent ↦ rw absent refl
          | inr (f, found) ↦ rw found refl
        ])

  not_taken : (at now : ℕ) (v : Volume) → v.taken ≡ at → (take_demand at now v).1 ≡ false
  unfolding take_demand
  not_taken at now v h = ground arith

  taken_now :
      (at now : ℕ) (v : Volume)
      → (take_demand at now v).1 ≡ true
      → (take_demand at now v).0.taken ≡ at
  unfolding take_demand
  taken_now at now v h = ground arith

  -- Whether a demand is taken does not depend on the clock.
  never_later :
      (at now again : ℕ) (v : Volume)
      → (take_demand at now v).1 ≡ false
      → (take_demand at again v).1 ≡ false
  unfolding take_demand
  never_later at now again v h = ground arith

  self : (a : ℕ) → (a == a) ≡ true
  self a = ground arith

  store_at_self : (a : ℕ) (v : Volume) (store : Store) → store_at a v store a ≡ v
  unfolding store_at
  store_at_self a v store = rw (self a) refl

  -- A demand that is not taken changes nothing.
  act_on_staged_idle :
      (at now a : ℕ) (n : Node)
      → (take_demand at now (n.store a)).1 ≡ false
      → act_on_staged at now a n ≡ n
  unfolding act_on_staged
  act_on_staged_idle at now a n h = rw h refl

  -- After a demand that is taken, the volume has it as the one it took last.
  act_on_staged-taken :
      (at now a : ℕ) (n : Node)
      → (take_demand at now (n.store a)).1 ≡ true
      → ((act_on_staged at now a n).store a).taken ≡ at
  unfolding act_on_staged
  act_on_staged-taken at now a n h =
      let v = (take_demand at now (n.store a)).0 in
      let n' : Node = record n { store = store_at a v n.store } in
      let held : (n'.store a).taken ≡ at =
        ap (λ w. w.taken) (store_at_self a v n.store) ∙ taken_now at now (n.store a) h in
      rw h (
        if-either {A = Node} (λ m. (m.store a).taken ≡ at) (writeable v) (λ written. held)
          (λ pulled. node_demand-taken now a n' ∙ held))

  -- Whether it was taken or not, the demand is not taken again.
  settled :
      (at now again a : ℕ) (n : Node)
      → (take_demand at again ((act_on_staged at now a n).store a)).1 ≡ false
  settled at now again a n = elim (Bool-cases (take_demand at now (n.store a)).1) [
    | inl taken ↦
        not_taken at again ((act_on_staged at now a n).store a)
          (act_on_staged-taken at now a n taken)
    | inr idle ↦ rw (act_on_staged_idle at now a n idle) (never_later at now again (n.store a) idle)
  ]

  act_on_staged-staged : (at now a : ℕ) (n : Node) → (act_on_staged at now a n).staged ≡ n.staged
  unfolding act_on_staged
  act_on_staged-staged at now a n =
      let v = (take_demand at now (n.store a)).0 in
      let n' : Node = record n { store = store_at a v n.store } in
      if-either {A = Node} (λ m. m.staged ≡ n.staged) (not (take_demand at now (n.store a)).1)
        (λ idle. refl)
        (λ taken.
          if-either {A = Node} (λ m. m.staged ≡ n.staged) (writeable v) (λ written. refl)
            (λ pulled. node_demand-staged now a n'))

  act_on_found :
      (handle : Bytes) (at now a : ℕ) (n : Node)
      → lookup handle n.staged ≡ some a
      → act_on handle at now n ≡ act_on_staged at now a n
  unfolding act_on
  act_on_found handle at now a n h = rw (h, act_on) refl

  act_on_absent :
      (handle : Bytes) (at now : ℕ) (n : Node)
      → lookup handle n.staged ≡ none
      → act_on handle at now n ≡ n
  unfolding act_on
  act_on_absent handle at now n h = rw (h, act_on) refl

  -- A demand that is read again does nothing: what the node is after it acted on a demand, it is still
  -- after it acts on the same one at any later or earlier time.
  pub act_on_again :
      (handle : Bytes) (at now again : ℕ) (n : Node)
      → act_on handle at again (act_on handle at now n) ≡ act_on handle at now n
  act_on_again handle at now again n = elim (Option-cases (lookup handle n.staged)) [
    | inl absent ↦
        ap (act_on handle at again) (act_on_absent handle at now n absent)
        ∙ act_on_absent handle at again n absent
        ∙ sym (act_on_absent handle at now n absent)
    | inr (a, found) ↦
        let acted = act_on_staged at now a n in
        let here : act_on handle at now n ≡ acted = act_on_found handle at now a n found in
        let still : lookup handle acted.staged ≡ some a =
          ap (lookup handle) (act_on_staged-staged at now a n) ∙ found in
        ap (act_on handle at again) here
        ∙ act_on_found handle at again a acted still
        ∙ act_on_staged_idle at again a acted (settled at now again a n)
        ∙ sym here
  ]
