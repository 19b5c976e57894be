-- ===== src/Sweep/Trees.antt =====
-- sweep.go: which work trees a pass removes.
use git_csi_driver.Prelude.{
  ℕ, ◌≡◌, refl, sym, ap, ◌∙◌, ◌≢◌, ◌↔◌, ◌⊎◌, inl, inr, Bool, true, false, not, ◌&&◌, ◌||◌, Option,
  none, some, List, [], ◌∷◌, map, arith, if◌then◌else◌, Bool-cases, if-either, Option-cases,
  is_some, ℤ, sub_ℕ, ltb_ℤ, leb_ℤ,
}
use mathlib.Core.Option.{some-injective}
use git_csi_driver.Prelude.Text.{Bytes, same, same_iff, is_empty}
use git_csi_driver.Prelude.Dict.{Dict, lookup, insert, lookup-remove, lookup-insert}
use git_csi_driver.Prelude.Dict.Order.{IsDistinct}
use git_csi_driver.Volume.{Volume}
use git_csi_driver.Sweep.{
  Tree, Node, holds, abandon, left_by, unstaged_at, sweep_old, sweep_tree, sweep_volume, sweep_each,
  sweep_volumes,
}

lookup-left_by :
    (id j : Bytes) (left : Option Tree) (m : Dict Tree)
    → lookup j (left_by id left m) ≡ (if same id j then left else lookup j m)
lookup-left_by id j none m = lookup-remove id j m
lookup-left_by id j (some part) m = lookup-insert id j part m

module _ (parse_time : Bytes → Option ℕ) (sweep_after : ℤ) (clock : Bytes → ℕ)
    (remains : Bytes → Tree → Option Tree) where
  -- Nothing holds the tree, its last unstage is older than the age, the last push sent the commit of its
  -- HEAD, and it did not diverge.
  abbrev pub IsFinished : Bytes → Tree → Node → Type 0
  IsFinished id work n =
      (lookup id n.staged ≡ none)
      × (lookup id n.volumes ≡ none)
      × (work.exists ≡ true)
      × (work.head ≢ [])
      × (work.pushed ≡ work.head)
      × (work.diverged ≡ [])
      × (when : ℕ) × (unstaged_at parse_time work ≡ some when)
      × (ltb_ℤ sweep_after (sub_ℕ (clock id) when) ≡ true)

  -- The same as a test, of a tree that nothing holds.
  is_old : Bytes → Tree → Bool
  is_old id work = elim (unstaged_at parse_time work) [
    | none ↦ false
    | some when ↦ not (leb_ℤ (sub_ℕ (clock id) when) sweep_after)
  ]

  is_safe : Tree → Bool
  is_safe work = not (is_empty work.head) && (same work.pushed work.head && is_empty work.diverged)

  goes : Bytes → Tree → Bool
  unfolding is_old is_safe
  goes id work = work.exists && (is_old id work && is_safe work)

  abandon-trees :
      (work : Tree) (id : Bytes) (when : ℕ) (n : Node) → (abandon work id when n).trees ≡ n.trees
  unfolding abandon
  abandon-trees work id when n =
      if-either (λ (m : Node). m.trees ≡ n.trees) (is_empty work.origin) (λ e. refl) (λ e. refl)

  sweep_old-trees :
      (work : Tree) (id : Bytes) (when : ℕ) (n : Node)
      → (sweep_old parse_time sweep_after clock remains work id when n).trees
        ≡ (if is_safe work then left_by id (remains id work) n.trees else n.trees)
  unfolding sweep_old is_safe
  sweep_old-trees work id when n =
      if-either
        (λ (m : Node).
          m.trees ≡ (if is_safe work then left_by id (remains id work) n.trees else n.trees))
        (is_empty work.head) (λ e. rw (is_safe, e) refl)
        λ e.
          if-either
            (λ (m : Node).
              m.trees ≡ (if is_safe work then left_by id (remains id work) n.trees else n.trees))
            (not (same work.pushed work.head) || not (is_empty work.diverged))
            (λ kept.
              abandon-trees work id when (record n { kept = insert id when n.kept }) ∙ ground arith)
            (λ sent. ground arith)

  sweep_tree-trees :
      (work : Tree) (id : Bytes) (n : Node)
      → (sweep_tree parse_time sweep_after clock remains work id n).trees
        ≡ (if goes id work then left_by id (remains id work) n.trees else n.trees)
  unfolding sweep_tree goes is_old
  sweep_tree-trees work id n =
      if-either
        (λ (m : Node).
          m.trees ≡ (if goes id work then left_by id (remains id work) n.trees else n.trees))
        (not work.exists) (λ gone. ground arith)
        (λ stands. elim (Option-cases (unstaged_at parse_time work)) [
          | inl never ↦ rw (goes, is_old, never) (ground arith)
          | inr (when, e) ↦ rw e (
              if-either
                (λ (m : Node).
                  m.trees
                  ≡ (if goes id work then left_by id (remains id work) n.trees else n.trees))
                (leb_ℤ (sub_ℕ (clock id) when) sweep_after)
                (λ young. rw (goes, is_old, e, young) (ground arith))
                (λ old. sweep_old-trees work id when n ∙ rw (goes, is_old, e, old) (ground arith)))
        ])

  -- What a pass over the trees does not touch: the volumes that the node holds and the repositories.
  abbrev pub Holds : Node → Node → Type 0
  Holds n m = (m.volumes ≡ n.volumes) × (m.staged ≡ n.staged) × (m.repositories ≡ n.repositories)

  sweep_tree-Holds :
      (work : Tree) (id : Bytes) (n : Node)
      → Holds n (sweep_tree parse_time sweep_after clock remains work id n)
  unfolding sweep_tree sweep_old abandon
  sweep_tree-Holds work id n =
      if-either (Holds n) (not work.exists) (λ gone. (refl, refl, refl))
        λ stands. elim (Option-cases (unstaged_at parse_time work)) [
          | inl never ↦ rw never (refl, refl, refl)
          | inr (when, e) ↦ rw e (
              if-either (Holds n) (leb_ℤ (sub_ℕ (clock id) when) sweep_after)
                (λ young. (refl, refl, refl))
                λ old.
                  if-either (Holds n) (is_empty work.head) (λ none. (refl, refl, refl))
                    λ head.
                      if-either (Holds n)
                        (not (same work.pushed work.head) || not (is_empty work.diverged))
                        (λ kept.
                          if-either (Holds n) (is_empty work.origin) (λ e. (refl, refl, refl))
                            (λ e. (refl, refl, refl)))
                        (λ sent. (refl, refl, refl)))
        ]

  sweep_volume-Holds :
      (id : Bytes) (n : Node) → Holds n (sweep_volume parse_time sweep_after clock remains id n)
  unfolding sweep_volume
  sweep_volume-Holds id n =
      if-either (Holds n) (holds id n) (λ held. (refl, refl, refl))
        λ free. elim (Option-cases (lookup id n.trees)) [
          | inl missing ↦ rw missing (refl, refl, refl)
          | inr (work, e) ↦ rw e (sweep_tree-Holds work id n)
        ]

  sweep_each-Holds :
      (ids : List Bytes) (n : Node)
      → Holds n (sweep_each parse_time sweep_after clock remains ids n)
  unfolding sweep_each
  sweep_each-Holds [] n = (refl, refl, refl)
  sweep_each-Holds (id ∷ ids) n =
      let (v, s, r) = sweep_volume-Holds id n in
      let (v', s', r') =
        sweep_each-Holds ids (sweep_volume parse_time sweep_after clock remains id n) in
      (v' ∙ v, s' ∙ s, r' ∙ r)

  pub sweep_volumes-Holds :
      (n : Node) → Holds n (sweep_volumes parse_time sweep_after clock remains n)
  unfolding sweep_volumes
  sweep_volumes-Holds n = sweep_each-Holds (map (λ entry. entry.0) n.trees) (record n { kept = [] })

  taken : Bytes → Tree → Node → Bool
  taken id work n = not (holds id n) && goes id work

  same_tree :
      (id j : Bytes) (work found : Tree) (n : Node)
      → same id j ≡ true
      → lookup j n.trees ≡ some work
      → lookup id n.trees ≡ some found
      → (goes id found ≡ goes j work) × (remains id found ≡ remains j work)
  same_tree id j work found n s e e' =
      let at : id ≡ j = (same_iff id j).0 s in
      let one : found ≡ work = some-injective _ _ (sym e' ∙ ap (λ k. lookup k n.trees) at ∙ e) in
      (
        ap (λ k. goes k found) at ∙ ap (goes j) one,
        ap (λ k. remains k found) at ∙ ap (remains j) one,
      )

  holds_alike : (id j : Bytes) (n : Node) → same id j ≡ true → holds id n ≡ holds j n
  holds_alike id j n s = ap (λ k. holds k n) ((same_iff id j).0 s)

  alike_lookup : (id j : Bytes) (n : Node) → same id j ≡ true → lookup id n.trees ≡ lookup j n.trees
  alike_lookup id j n s = ap (λ k. lookup k n.trees) ((same_iff id j).0 s)

  after_tree :
      (id j : Bytes) (found : Tree) (n : Node)
      → lookup j (if goes id found then left_by id (remains id found) n.trees else n.trees)
        ≡ (if goes id found && same id j then remains id found else lookup j n.trees)
  after_tree id j found n = elim (Bool-cases (goes id found)) [
    | inl go ↦ rw go (lookup-left_by id j (remains id found) n.trees)
    | inr stay ↦ rw stay refl
  ]

  sweep_volume-trees :
      (id j : Bytes) (work : Tree) (n : Node)
      → lookup j n.trees ≡ some work
      → lookup j (sweep_volume parse_time sweep_after clock remains id n).trees
        ≡ (if same id j && taken j work n then remains j work else some work)
  unfolding sweep_volume taken
  sweep_volume-trees id j work n e =
      if-either
        (λ (m : Node).
          lookup j m.trees ≡ (if same id j && taken j work n then remains j work else some work))
        (holds id n) (λ held. ground (arith, e, held, holds_alike id j n))
        (λ free. elim (Option-cases (lookup id n.trees)) [
          | inl missing ↦ rw missing (e ∙ ground (arith, e, missing, alike_lookup id j n))
          | inr (found, e') ↦ rw e' (
              ap (lookup j) (sweep_tree-trees found id n)
              ∙ after_tree id j found n
              ∙ ground (arith, e, e', free, holds_alike id j n, same_tree id j work found n))
        ])

  sweep_volume_other :
      (id j : Bytes) (n : Node)
      → same id j ≡ false
      → lookup j (sweep_volume parse_time sweep_after clock remains id n).trees ≡ lookup j n.trees
  unfolding sweep_volume
  sweep_volume_other id j n other =
      if-either (λ (m : Node). lookup j m.trees ≡ lookup j n.trees) (holds id n) (λ held. refl)
        λ free. elim (Option-cases (lookup id n.trees)) [
          | inl missing ↦ rw missing refl
          | inr (work, e') ↦ rw e' (
              ap (lookup j) (sweep_tree-trees work id n)
              ∙ after_tree id j work n
              ∙ ground (arith, other))
        ]

  among : Bytes → List Bytes → Bool
  among j [] = false
  among j (id ∷ ids) = same id j || among j ids

  sweep_each_other :
      (ids : List Bytes) (j : Bytes) (n : Node)
      → among j ids ≡ false
      → lookup j (sweep_each parse_time sweep_after clock remains ids n).trees ≡ lookup j n.trees
  unfolding sweep_each among
  sweep_each_other [] j n e = refl
  sweep_each_other (id ∷ ids) j n e =
      sweep_each_other ids j (sweep_volume parse_time sweep_after clock remains id n)
        (ground (arith, e))
      ∙ sweep_volume_other id j n (ground (arith, e))

  abbrev AreDistinct : List Bytes → Type 0
  AreDistinct [] = Unit
  AreDistinct (id ∷ ids) = (among id ids ≡ false) × AreDistinct ids

  none-among :
      (k : Bytes) (m : Dict Tree) → lookup k m ≡ none → among k (map (λ entry. entry.0) m) ≡ false
  unfolding lookup among
  none-among k [] e = refl
  none-among k ((i, w) ∷ m) e = ground (arith, e, none-among k m)

  keys-AreDistinct : (m : Dict Tree) → IsDistinct m → AreDistinct (map (λ entry. entry.0) m)
  keys-AreDistinct [] d = tt
  keys-AreDistinct ((k, w) ∷ m) (new, d) = (none-among k m new, keys-AreDistinct m d)

  taken_later :
      (id j : Bytes) (work : Tree) (n : Node)
      → taken j work (sweep_volume parse_time sweep_after clock remains id n) ≡ taken j work n
  unfolding taken holds
  taken_later id j work n =
      let (volumes, staged, repositories) = sweep_volume-Holds id n in
      ap
        (λ (m : Dict Volume × Dict Volume).
          not (is_some (lookup j m.1) || is_some (lookup j m.0)) && goes j work)
        (cc (volumes, staged))

  sweep_each-trees :
      (ids : List Bytes) (j : Bytes) (work : Tree) (n : Node)
      → AreDistinct ids
      → lookup j n.trees ≡ some work
      → lookup j (sweep_each parse_time sweep_after clock remains ids n).trees
        ≡ (if among j ids && taken j work n then remains j work else some work)
  unfolding sweep_each among
  sweep_each-trees [] j work n d e = e
  sweep_each-trees (id ∷ ids) j work n (new, d) e =
      elim (Bool-cases (same id j && taken j work n)) [
        | inl now ↦
            let here : id ≡ j = (same_iff id j).0 (ground (arith, now)) in
            sweep_each_other ids j _ (ap (λ k. among k ids) (sym here) ∙ new)
            ∙ sweep_volume-trees id j work n e
            ∙ ground (arith, now)
        | inr later ↦
            sweep_each-trees ids j work _ d (sweep_volume-trees id j work n e ∙ rw later refl)
            ∙ ground (arith, taken_later id j work n)
      ]

  keys-among :
      (j : Bytes) (work : Tree) (m : Dict Tree)
      → lookup j m ≡ some work
      → among j (map (λ entry. entry.0) m) ≡ true
  unfolding lookup among
  keys-among j work [] e = cc e
  keys-among j work ((k, w) ∷ m) e = ground (arith, e, keys-among j work m)

  is_empty_iff : (s : Bytes) → (is_empty s ≡ true) ↔ (s ≡ [])
  is_empty_iff [] = (λ e. refl, λ e. refl)
  is_empty_iff (c ∷ s) = (λ e. cc e, λ e. cc e)

  old_when :
      (j : Bytes) (work : Tree) (when : ℕ)
      → unstaged_at parse_time work ≡ some when
      → is_old j work ≡ not (leb_ℤ (sub_ℕ (clock j) when) sweep_after)
  unfolding is_old
  old_when j work when at = rw (is_old, at) refl

  goes-IsFinished :
      (j : Bytes) (work : Tree) (n : Node) → taken j work n ≡ true → IsFinished j work n
  unfolding taken goes is_safe holds
  goes-IsFinished j work n e = elim (Option-cases (unstaged_at parse_time work)) [
    | inl never ↦
        let young : is_old j work ≡ false = rw (is_old, never) refl in ground (arith, young)
    | inr (when, at) ↦
        let old = old_when j work when at in
        (
          ground arith,
          ground arith,
          ground arith,
          ground (arith, is_empty_iff work.head),
          ground (arith, same_iff work.pushed work.head),
          ground (arith, is_empty_iff work.diverged),
          when,
          at,
          ground (arith, old),
        )
  ]

  IsFinished-goes :
      (j : Bytes) (work : Tree) (n : Node) → IsFinished j work n → taken j work n ≡ true
  unfolding taken goes is_safe holds
  IsFinished-goes j work n (staged, volumes, there, head, sent, straight, when, at, old) =
      let is_old_now = old_when j work when at in
      ground (
        arith,
        is_old_now,
        is_empty_iff work.head,
        same_iff work.pushed work.head,
        is_empty_iff work.diverged,
      )

  taken_kept :
      (j : Bytes) (work : Tree) (n : Node) → taken j work (record n { kept = [] }) ≡ taken j work n
  unfolding taken holds
  taken_kept j work n = refl

  -- In a store whose names are distinct, a pass removes a work tree exactly if nothing holds it, its last unstage is
  -- older than the age when the pass looks at it, it has a commit, the last push sent that commit, and the tree did
  -- not diverge: then the store has what the removal leaves of it, which is nothing if it works. Every other tree
  -- stays as it is.
  pub sweep_volumes_iff :
      (j : Bytes) (work : Tree) (n : Node)
      → IsDistinct n.trees
      → lookup j n.trees ≡ some work
      → (IsFinished j work n
          × (lookup j (sweep_volumes parse_time sweep_after clock remains n).trees
              ≡ remains j work))
        ⊎ ((¬ IsFinished j work n)
            × (lookup j (sweep_volumes parse_time sweep_after clock remains n).trees ≡ some work))
  unfolding sweep_volumes
  sweep_volumes_iff j work n distinct e =
      let after =
        sweep_each-trees (map (λ entry. entry.0) n.trees) j work (record n { kept = [] })
          (keys-AreDistinct n.trees distinct) e in
      let listed = keys-among j work n.trees e in
      let same_choice = taken_kept j work n in
      elim (Bool-cases (taken j work n)) [
        | inl now ↦ inl (goes-IsFinished j work n now, after ∙ rw (listed, same_choice, now) refl)
        | inr stays ↦ inr (
          λ f. cc (stays, IsFinished-goes j work n f),
          after ∙ rw (listed, same_choice, stays) refl,
        )
      ]
