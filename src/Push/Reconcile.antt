-- ===== src/Push/Reconcile.antt =====
-- reconcile.go and `heal` of diverged.go: what a stage does with an upstream that moved. `restage` is
-- the decision and its effects.
use git_csi_driver.Prelude.{◌≡◌, ◌⊎◌, Bool, true, false, not, ◌||◌, [], if◌then◌else◌, arith}
use git_csi_driver.Prelude.Text.{Bytes, codes, same, is_empty}
use git_csi_driver.Volume.{no_changes, report_diverged, report_trouble}
use git_csi_driver.Push.{Git, Held, diverge, healed}

module _ {R : Type 0} (git : Git R) where
  -- The reset to the upstream commit and the mark, which `fastForward` and `heal` begin with: whether
  -- both worked.
  unfoldable pub take_upstream : Bytes → R → R × Bool
  take_upstream upstream r =
      let (moved, worked) = git.reset upstream r in
      if not worked
      then (moved, false)
      else let (marked, noted) = git.mark_pushed upstream moved in
        if noted then (git.restore marked, true) else (marked, false)

  unfoldable pub fast_forward : Bytes → Held R → Held R × Bool
  unfolding take_upstream
  fast_forward upstream h =
      let (r, worked) = take_upstream upstream h.repository in (record h { repository = r }, worked)

  -- `rebase`: a rebase that fails leaves the volume diverged.
  unfoldable pub rebase : Bytes → Held R → Held R × Bool
  rebase upstream h =
      let (r, rebased) = git.rebase_aside upstream h.repository in
      if not rebased
      then (diverge git (record h { repository = r }), true)
      else let (marked, noted) = git.mark_pushed upstream r in
        if noted
        then (record h { repository = git.restore marked }, true)
        else (record h { repository = marked }, false)

  unfoldable pub heal : Bytes → Bytes → Bytes → Held R → Held R × Bool
  unfolding take_upstream
  heal branch upstream side h =
      let (r, worked) = take_upstream upstream h.repository in
      if not worked
      then (record h { repository = r }, false)
      else healed git
          (record h { repository = if is_empty side then r else git.delete_branch branch r })

  unfoldable pub heal_or_hold : Bytes → Bytes → Bytes → Bytes → Held R → Held R × Bool
  heal_or_hold branch head upstream side h =
      if not (git.ancestor h.repository head upstream)
      then (record h { volume = report_diverged branch h.volume }, true)
      else heal branch upstream side h

  -- `reconcile` for a volume that did not diverge. The trouble's text stands for the message, which names
  -- the ref and the commit.
  unfoldable pub reconcile_straight : Bytes → Bytes → Held R → Held R × Bool
  reconcile_straight head upstream h =
      if same head upstream || git.ancestor h.repository upstream head
      then (h, true)
      else if not (no_changes (git.pending h.repository))
      then (record h { volume = (report_trouble (codes "upstream moved") h.volume).0 }, true)
      else if git.ancestor h.repository head upstream
      then fast_forward upstream h
      else rebase upstream h

  -- The state after, and whether it worked.
  unfoldable pub reconcile : Bytes → Bytes → Bytes → Held R → Held R × Bool
  reconcile head upstream side h =
      if is_empty (git.diverged_branch h.repository)
      then reconcile_straight head upstream h
      else heal_or_hold (git.diverged_branch h.repository) head upstream side h

  -- Git alone says what the tree holds that upstream does not: the tree is neither upstream's commit nor
  -- one of the commits that it is built on.
  abbrev pub HasOwnWork : Bytes → Bytes → Held R → Type 0
  HasOwnWork head upstream h = git.ancestor h.repository head upstream ≡ false

  -- The tree's own commits and writes are kept: where upstream does not hold the tree's commit, or a
  -- volume that did not diverge holds writes that are not committed, a stage resets nothing, and it
  -- changes the repository only by a rebase of a tree without such writes.
  pub reconcile_keeps :
      (head upstream side : Bytes) (h : Held R)
      → (HasOwnWork head upstream h)
        ⊎ ((git.diverged_branch h.repository ≡ [])
            × (no_changes (git.pending h.repository) ≡ false))
      → let (h', worked) = reconcile head upstream side h in
        (h'.repository ≡ h.repository)
        ⊎ ((no_changes (git.pending h.repository) ≡ true)
            × (reconcile head upstream side h ≡ rebase upstream h))
  unfolding reconcile reconcile_straight heal_or_hold
  reconcile_keeps head upstream side h k = ground arith
