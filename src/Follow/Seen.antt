-- ===== src/Follow/Seen.antt =====
-- demand.go: the reports of the watch on the PersistentVolumes, a delete among them, and the demand of a resume.
--
-- An object that the informer hands over is a PersistentVolume, or `none` where it is not one.
use git_csi_driver.Prelude.{
  ℕ, ◌≡◌, refl, sym, ap, ◌∙◌, ◌≢◌, ◌⊎◌, inl, inr, not, Option, none, some, [], if◌then◌else◌,
  if-either, arith, Bool-cases, Option-cases,
}
use git_csi_driver.Prelude.Text.{Bytes, codes, same, same_iff, is_empty}
use git_csi_driver.Prelude.Dict.{
  Dict, lookup, insert, remove, value_of, lookup-insert, lookup-insert_self, lookup-remove,
}
use git_csi_driver.Cluster.{CsiSource, PersistentVolume}
use git_csi_driver.Attributes.{follows}
use git_csi_driver.Volume.{writeable, take_demand}
use git_csi_driver.Follow.{store_at, demand}
use git_csi_driver.Follow.Watch.{
  Node, volume_handle, loop_name, node_demand, act_on_staged, act_on, arrived, read,
}

unfoldable pub forget : PersistentVolume → Node → Node
unfolding remove
forget held n = elim held.source [
  | none ↦ n
  | some source ↦ record n { seen = remove source.volume_handle n.seen }
]

-- What a delete carries: the object, or a tombstone with the last copy of it.
pub data Deleted : Type 0 where
  object tombstone : Option PersistentVolume → Deleted

abbrev pub unwrapped : Deleted → Option PersistentVolume
unwrapped (object held) = held
unwrapped (tombstone held) = held

unfoldable pub deleted : Deleted → Node → Node
unfolding forget
deleted gone n = elim (unwrapped gone) [ none ↦ n | some held ↦ forget held n ]

volume_handle-eq :
    (last held : PersistentVolume)
    → last.source ≡ held.source
    → volume_handle last ≡ volume_handle held
unfolding volume_handle
volume_handle-eq last held e = rw e refl

volume_handle-none : (held : PersistentVolume) → held.source ≡ none → volume_handle held ≡ none
unfolding volume_handle
volume_handle-none held e = rw e refl

volume_handle-some :
    (held : PersistentVolume) (source : CsiSource) (handle : Bytes)
    → held.source ≡ some source
    → volume_handle held ≡ some handle
    → source.volume_handle ≡ handle
unfolding volume_handle
volume_handle-some held source handle e = rw e (ground arith)

module _ (name_of : Bytes → Bytes) where
  -- The demand that a resume makes.
  unfoldable pub resume_pull : ℕ → ℕ → Node → Node
  resume_pull at a n =
      if not (follows (n.store a).attributes.pull.mode)
      then n
      else elim (lookup (loop_name name_of a n) n.followers) [
        | none ↦ n
        | some f ↦
            let (store, f') = demand at a n.store f in
            record n { store = store; followers = insert (loop_name name_of a n) f' n.followers }
      ]

  node_demand-seen : (at a : ℕ) (n : Node) → (node_demand name_of at a n).seen ≡ n.seen
  unfolding node_demand
  node_demand-seen at a n =
      if-either {A = Node} (λ m. m.seen ≡ n.seen) (not (follows (n.store a).attributes.pull.mode))
        (λ out. refl)
        (λ joined. elim (Option-cases (lookup (loop_name name_of a n) n.followers)) [
          | inl absent ↦ rw absent refl
          | inr (f, found) ↦ rw found refl
        ])

  act_on_staged-seen : (at now a : ℕ) (n : Node) → (act_on_staged name_of at now a n).seen ≡ n.seen
  unfolding act_on_staged
  act_on_staged-seen at now a n =
      let v = (take_demand at now (n.store a)).0 in
      let n' : Node = record n { store = store_at a v n.store } in
      if-either {A = Node} (λ m. m.seen ≡ n.seen) (not (take_demand at now (n.store a)).1)
        (λ idle. refl)
        (λ taken.
          if-either {A = Node} (λ m. m.seen ≡ n.seen) (writeable v) (λ written. refl)
            (λ pulled. node_demand-seen now a n'))

  act_on-seen :
      (handle : Bytes) (at now : ℕ) (n : Node) → (act_on name_of handle at now n).seen ≡ n.seen
  unfolding act_on
  act_on-seen handle at now n = elim (Option-cases (lookup handle n.staged)) [
    | inl absent ↦ rw (act_on, absent) refl
    | inr (a, found) ↦ rw (act_on, found) (act_on_staged-seen at now a n)
  ]

  arrived-seen :
      (handle : Bytes) (now : ℕ) (n : Node) → (arrived name_of handle now n).seen ≡ n.seen
  unfolding arrived
  arrived-seen handle now n = elim (Option-cases (lookup handle n.seen)) [
    | inl absent ↦ rw (arrived, absent) refl
    | inr (at, found) ↦ rw (arrived, found) (act_on-seen handle at now n)
  ]

  module _ (parse_time : Bytes → Option ℕ) where
    -- A read keeps what was seen, or adds a demand of the volume that it read.
    read-seen :
        (now : ℕ) (held : PersistentVolume) (n : Node)
        → ((read name_of parse_time now held n).seen ≡ n.seen)
          ⊎ ((handle : Bytes) × (at : ℕ) × (volume_handle held ≡ some handle)
              × ((read name_of parse_time now held n).seen ≡ insert handle at n.seen))
    unfolding read
    read-seen now held n =
        let asked = value_of (codes "git.liken.sh/pull-requested-at") held.annotations in
        elim (Option-cases (volume_handle held)) [
          | inl other ↦ inl (rw (read, other) refl)
          | inr (handle, ours) ↦ elim (Bool-cases (is_empty asked)) [
            | inl blank ↦ inl (rw (read, ours) (rw blank refl))
            | inr said ↦ elim (Option-cases (parse_time asked)) [
              | inl broken ↦ inl (rw (read, ours) (rw said (rw broken refl)))
              | inr (at, timed) ↦ inr (
                handle,
                at,
                ours,
                rw (read, ours) (rw said (rw timed (act_on-seen handle at now _))),
              )
            ]
          ]
        ]

-- The source of a PersistentVolume that exists does not change.
abbrev pub KeepsSource : PersistentVolume → Dict PersistentVolume → Type 0
KeepsSource held c =
    (last : PersistentVolume) → lookup held.name c ≡ some last → last.source ≡ held.source

-- The PersistentVolumes that exist for the watch, by their names, and the node, as a driver that starts comes to
-- them: by a read of a new or changed volume, a delete, and the end of a stage.
pub data Reaches (name_of : Bytes → Bytes) (parse_time : Bytes → Option ℕ)
    : Dict PersistentVolume → Node → Type 0 where
  begins : (n : Node) → n.seen ≡ [] → Reaches name_of parse_time [] n
  reads :
      {c : Dict PersistentVolume} {n : Node} (now : ℕ) (held : PersistentVolume)
      → KeepsSource held c
      → Reaches name_of parse_time c n
      → Reaches name_of parse_time (insert held.name held c) (read name_of parse_time now held n)
  deletes :
      {c : Dict PersistentVolume} {n : Node} (gone : Deleted) (held : PersistentVolume)
      → unwrapped gone ≡ some held
      → KeepsSource held c
      → Reaches name_of parse_time c n
      → Reaches name_of parse_time (remove held.name c) (deleted gone n)
  stages :
      {c : Dict PersistentVolume} {n : Node} (handle : Bytes) (now : ℕ)
      → Reaches name_of parse_time c n
      → Reaches name_of parse_time c (arrived name_of handle now n)

-- A PersistentVolume of this driver that exists and has the handle.
abbrev pub Exists : Dict PersistentVolume → Bytes → Type 0
Exists c handle =
    (name : Bytes) × (held : PersistentVolume) × (lookup name c ≡ some held)
    × (volume_handle held ≡ some handle)

abbrev IsKnown : Dict PersistentVolume → Dict ℕ → Type 0
IsKnown c seen = (handle : Bytes) (at : ℕ) → lookup handle seen ≡ some at → Exists c handle

-- A read of a volume keeps what exists, and adds it.
insert-Exists :
    (c : Dict PersistentVolume) (held : PersistentVolume) (handle : Bytes)
    → KeepsSource held c
    → Exists c handle
    → Exists (insert held.name held c) handle
insert-Exists c held handle keeps (name, last, found, at) =
    elim (Bool-cases (same held.name name)) [
      | inl here ↦
          let same_name : held.name ≡ name = (same_iff held.name name).0 here in
          (
            name,
            held,
            ground (arith, here, lookup-insert held.name name held c),
            sym (volume_handle-eq last held (keeps last (ap (λ k. lookup k c) same_name ∙ found)))
                ∙ at,
          )
      | inr other ↦
          (name, last, ground (arith, other, found, lookup-insert held.name name held c), at)
    ]

remove-Exists :
    (c : Dict PersistentVolume) (held : PersistentVolume) (handle : Bytes)
    → KeepsSource held c
    → volume_handle held ≢ some handle
    → Exists c handle
    → Exists (remove held.name c) handle
remove-Exists c held handle keeps free (name, last, found, at) =
    elim (Bool-cases (same held.name name)) [
      | inl here ↦
          let same_name : held.name ≡ name = (same_iff held.name name).0 here in
          absurd (
            free (
              sym (volume_handle-eq last held (keeps last (ap (λ k. lookup k c) same_name ∙ found)))
              ∙ at))
      | inr other ↦ (name, last, ground (arith, other, found, lookup-remove held.name name c), at)
    ]

deleted-IsKnown :
    (c : Dict PersistentVolume) (held : PersistentVolume) (n : Node)
    → KeepsSource held c
    → IsKnown c n.seen
    → IsKnown (remove held.name c) (forget held n).seen
unfolding forget
deleted-IsKnown c held n keeps known = elim (Option-cases held.source) [
  | inl missing ↦
      rw (forget, missing)
        (λ handle at found.
          remove-Exists c held handle keeps (λ e. cc (e, volume_handle-none held missing))
            (known handle at found))
  | inr (source, there) ↦
      rw (forget, there)
        (λ handle at found.
          remove-Exists c held handle keeps
            (λ e.
              let gone : source.volume_handle ≡ handle =
                volume_handle-some held source handle there e in
              ground (
                arith,
                found,
                (same_iff source.volume_handle handle).1 gone,
                lookup-remove source.volume_handle handle n.seen,
              ))
            (known handle at
              (ground (arith, found, lookup-remove source.volume_handle handle n.seen))))
]

read-IsKnown :
    (name_of : Bytes → Bytes) (parse_time : Bytes → Option ℕ) (now : ℕ) (c : Dict PersistentVolume)
    (held : PersistentVolume) (n : Node)
    → KeepsSource held c
    → IsKnown c n.seen
    → IsKnown (insert held.name held c) (read name_of parse_time now held n).seen
read-IsKnown name_of parse_time now c held n keeps known =
    elim (read-seen name_of parse_time now held n) [
      | inl same_seen ↦ λ handle at found.
          insert-Exists c held handle keeps
            (known handle at (ap (lookup handle) (sym same_seen) ∙ found))
      | inr (ours, asked, handled, added) ↦ λ handle at found.
          elim (Bool-cases (same ours handle)) [
            | inl here ↦ (
              held.name,
              held,
              lookup-insert_self held.name held c,
              handled ∙ ap some ((same_iff ours handle).0 here),
            )
            | inr other ↦
                let found' : lookup handle (insert ours asked n.seen) ≡ some at =
                  ap (lookup handle) (sym added) ∙ found in
                insert-Exists c held handle keeps (
                  known handle at
                    (ground (arith, other, found', lookup-insert ours handle asked n.seen)))
          ]
    ]

Reaches-IsKnown :
    {name_of : Bytes → Bytes} {parse_time : Bytes → Option ℕ} {c : Dict PersistentVolume} {n : Node}
    → Reaches name_of parse_time c n
    → IsKnown c n.seen
unfolding deleted lookup
Reaches-IsKnown (begins n e) = λ handle at found. ground (arith, e, found)
Reaches-IsKnown {name_of} {parse_time} (reads {c} {n} now held keeps r) =
    read-IsKnown name_of parse_time now c held n keeps (Reaches-IsKnown r)
Reaches-IsKnown (deletes {c} {n} gone held e keeps r) =
    rw (deleted, e) (deleted-IsKnown c held n keeps (Reaches-IsKnown r))
Reaches-IsKnown {name_of} (stages {c} {n} handle now r) = λ one at found.
    Reaches-IsKnown r one at (ap (lookup one) (sym (arrived-seen name_of handle now n)) ∙ found)

-- Where the source of a volume does not change while the volume exists, a demand that the node keeps is of a volume
-- of this driver that exists, whatever reads, deletes and stages came before, in whatever order.
pub Reaches-Exists :
    {name_of : Bytes → Bytes} {parse_time : Bytes → Option ℕ} {c : Dict PersistentVolume} {n : Node}
    (handle : Bytes) (at : ℕ)
    → Reaches name_of parse_time c n
    → lookup handle n.seen ≡ some at
    → Exists c handle
Reaches-Exists handle at r found = Reaches-IsKnown r handle at found
