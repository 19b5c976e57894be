-- ===== src/Node/Work/Reported.antt =====
-- stage.go: what a volume reports after a stage of its work tree.
use git_csi_driver.Prelude.{
  ℤ, ap, ◌==◌, ℕ, ◌≡◌, refl, sym, ◌∙◌, inl, inr, Bool, true, false, not, ◌&&◌, Option, none, some,
  arith, if-either, Option-cases, ok,
}
use git_csi_driver.Prelude.Text.{Bytes, same, same_iff}
use git_csi_driver.Volume.{Volume, report_unpushed, report_trouble, answer_demands_before}
use git_csi_driver.Policy.{Policy}
use git_csi_driver.Volume.Credential.{waits_for_credential}
use git_csi_driver.Push.{
  Git, Held, contains, diverge, healed, push_now, push_if_due, push_due, push, push_failed, counted,
}
use git_csi_driver.Push.Reconcile.{
  reconcile, reconcile_straight, heal_or_hold, heal, fast_forward, rebase, take_upstream,
}
use git_csi_driver.Node.Work.{
  WorkGit, Staging, or_fail, ref_deleted, restore, make_tree, report_made, mark_made,
  reconcile_marked, mark_unmarked, report_moved, keep_tree, bring_tree, after_fetch, fetch_side,
  fetch_tree, stage_tree, missing_ref,
}

-- What git does to the HEAD of the work tree: a tree that is made is at its commit, and neither a mark nor
-- the metadata moves it.
pub record IsGit {R : Type 0} (work : WorkGit R) : Type 0 where
  pub head_of :
      (r : R) (commit : Bytes) → work.git.head r ≡ some commit → work.git.head_commit r ≡ commit
  pub made_at :
      (ref commit : Bytes) (r : R)
      → (work.work_create ref commit r).1 ≡ true
      → work.git.head_commit (work.work_create ref commit r).0 ≡ commit
  pub marked_at :
      (commit : Bytes) (r : R)
      → work.git.head_commit (work.git.mark_pushed commit r).0 ≡ work.git.head_commit r
  pub fetched_at : (r : R) → work.git.head_commit (work.fetch_metadata r).0 ≡ work.git.head_commit r
  pub replayed_at : (r : R) → work.git.head_commit (work.replay_metadata r) ≡ work.git.head_commit r

module _ {R : Type 0} (work : WorkGit R) (sound : IsGit work) where
  -- A stage that works reports the commit of the tree.
  abbrev IsReported : Staging work → Type 0
  IsReported s = s.1 ≡ ok tt → s.0.volume.commit ≡ work.git.head_commit s.0.repository

  reconcile-commit :
      (head upstream side : Bytes) (h : Held R)
      → (reconcile work.git head upstream side h).0.volume.commit ≡ h.volume.commit
  unfolding reconcile reconcile_straight heal_or_hold heal fast_forward rebase take_upstream diverge
      healed report_trouble
  reconcile-commit head upstream side h = ground arith

  or_fail-IsReported :
      (m : R × Bool) (v : Volume) (next : Held R → Staging work)
      → (m.1 ≡ true → IsReported (next (record { volume = v; repository = m.0 })))
      → IsReported (or_fail work m v next)
  or_fail-IsReported (r, true) v next reported = reported refl
  or_fail-IsReported (r, false) v next reported = λ e. cc e

  restore_at : (r : R) → work.git.head_commit (restore work r) ≡ work.git.head_commit r
  unfolding restore
  restore_at r = ground (arith, sound.fetched_at r, sound.replayed_at (work.fetch_metadata r).0)

  make_tree-IsReported : (commit : Bytes) (h : Held R) → IsReported (make_tree work commit h)
  unfolding make_tree
  make_tree-IsReported commit h =
      let created = work.work_create h.volume.attributes.ref commit h.repository in
      or_fail-IsReported created h.volume (mark_made work commit) λ worked.
        or_fail-IsReported (work.git.mark_pushed commit created.0) h.volume
          (report_made work commit)
          λ marked e. sym (
            restore_at (work.git.mark_pushed commit created.0).0
            ∙ sound.marked_at commit created.0
            ∙ sound.made_at h.volume.attributes.ref commit h.repository worked)

  report_moved-IsReported :
      (head : Bytes) (m : Held R × Bool)
      → m.0.volume.commit ≡ head
      → IsReported (report_moved work head m)
  unfolding report_moved
  report_moved-IsReported head (h, false) at = λ e. cc e
  report_moved-IsReported head (h, true) at = λ e.
      if-either (λ (g : Held R). g.volume.commit ≡ work.git.head_commit g.repository)
        (same (work.git.head_commit h.repository) head)
        (λ stayed. at ∙ sym ((same_iff _ head).0 stayed)) (λ moved. refl)

  keep_tree-IsReported :
      (commit side : Bytes) (h : Held R) → IsReported (keep_tree work commit side h)
  unfolding keep_tree
  keep_tree-IsReported commit side h = elim (Option-cases (work.git.head h.repository)) [
    | inl missing ↦ rw (keep_tree, missing) (λ e. cc e)
    | inr (head, found) ↦
        rw (keep_tree, found)
          (or_fail-IsReported (mark_unmarked work head h.repository) h.volume
            (reconcile_marked work head commit side)
            λ marked.
              report_moved-IsReported head (reconcile work.git head commit side _)
                (reconcile-commit head commit side _))
  ]

  bring_tree-IsReported :
      (start : ℕ) (note : Volume → Volume) (side : Bytes) (h : Held R)
      → IsReported (bring_tree work start note side h)
  unfolding bring_tree
  bring_tree-IsReported start note side h =
      let v : Volume = answer_demands_before start h.volume in
      elim (Option-cases (work.resolve v.attributes.ref h.repository)) [
        | inl missing ↦ rw (bring_tree, missing) (λ e. cc e)
        | inr (commit, found) ↦
            rw (bring_tree, found)
              (if-either IsReported (work.work_exists h.repository)
                (λ there. keep_tree-IsReported commit side _)
                (λ new. make_tree-IsReported commit _))
      ]

  ref_deleted-IsReported : (h : Held R) → IsReported (ref_deleted work h)
  unfolding ref_deleted
  ref_deleted-IsReported h = elim (Option-cases (work.git.head h.repository)) [
    | inl missing ↦ rw (ref_deleted, missing) (λ e. cc e)
    | inr (head, found) ↦ rw (ref_deleted, found) (λ e. sym (sound.head_of h.repository head found))
  ]

  after_fetch-IsReported :
      (start : ℕ) (note : Volume → Volume) (side : Bytes) (error : Option Bytes) (h : Held R)
      → IsReported (after_fetch work start note side error h)
  unfolding after_fetch
  after_fetch-IsReported start note side none h = bring_tree-IsReported start note side h
  after_fetch-IsReported start note side (some error) h =
      if-either IsReported (work.work_exists h.repository && contains missing_ref error)
        (λ deleted. ref_deleted-IsReported h) (λ failed e. cc e)

  fetch_tree-IsReported :
      (start : ℕ) (note : Volume → Volume) (h : Held R) → IsReported (fetch_tree work start note h)
  unfolding fetch_tree
  fetch_tree-IsReported start note h =
      if-either IsReported (not (work.uses_credential h.repository)) (λ unusable e. cc e)
        (λ usable. after_fetch-IsReported start note _ _ _)

  -- Where git keeps the HEAD of a tree as `IsGit` says, a stage of a writeable volume that works reports the commit
  -- that is the HEAD of its work tree, on every branch: the tree was made, it was left alone, moved or rebased, it
  -- diverged, or the remote has its ref no longer.
  pub stage_tree-IsReported :
      (start : ℕ) (note : Volume → Volume) (h : Held R)
      → (stage_tree work start note h).1 ≡ ok tt
      → let staged = (stage_tree work start note h).0 in
        staged.volume.commit ≡ work.git.head_commit staged.repository
  unfolding stage_tree
  stage_tree-IsReported start note h =
      if-either IsReported (work.repository_exists h.repository)
        (λ there. fetch_tree-IsReported start note h)
        (λ new.
          or_fail-IsReported (work.create_repository h.repository) h.volume
            (fetch_tree work start note) (λ created. fetch_tree-IsReported start note _))

-- What the ref that is deleted holds back.
module _ {R : Type 0} (git : Git R) where
  push_now_held : (now : ℕ) (h : Held R) → h.volume.ref_deleted ≡ true → push_now git now h ≡ h
  unfolding push_now
  push_now_held now h e = rw e refl

  push_if_due_held :
      (rules : Option Policy) (now : ℕ) (quiet : ℤ) (h : Held R)
      → h.volume.ref_deleted ≡ true
      → (push_if_due git rules now quiet h).repository ≡ h.repository
  unfolding push_if_due counted
  push_if_due_held none now quiet h e = refl
  push_if_due_held (some rules) now quiet h e = elim (Option-cases (git.unpushed h.repository)) [
    | inl unread ↦ rw (push_if_due, counted, unread) refl
    | inr ((count, oldest), found) ↦
        rw (push_if_due, counted, found)
          (if-either (λ (g : Held R). g.repository ≡ h.repository)
            (push_due rules count oldest now quiet)
            (λ due.
              ap (λ (g : Held R). g.repository)
                (push_now_held now (record h { volume = report_unpushed count oldest h.volume }) e))
            (λ idle. refl))
  ]

  push_held :
      (now : ℕ) (h : Held R)
      → h.volume.ref_deleted ≡ true
      → (push git now h).repository ≡ h.repository
  unfolding push counted push_failed
  push_held now h e = elim (Option-cases (git.unpushed h.repository)) [
    | inl unread ↦ rw (push, counted, unread) refl
    | inr ((count, oldest), found) ↦
        let counted_h : Held R = record h { volume = report_unpushed count oldest h.volume } in
        rw (push, counted, found)
          (if-either (λ (g : Held R). g.repository ≡ h.repository) (count == 0) (λ none_left. refl)
            (λ some_left.
              if-either (λ (g : Held R). g.repository ≡ h.repository)
                (waits_for_credential counted_h.volume) (λ waits. refl)
                (λ goes. ap (λ (g : Held R). g.repository) (push_now_held now counted_h e))))
  ]

module _ {R : Type 0} (work : WorkGit R) where
  abbrev IsHeldBack : Staging work → Type 0
  IsHeldBack s = s.1 ≡ ok tt → s.0.volume.ref_deleted ≡ true

  ref_deleted-IsHeldBack : (h : Held R) → IsHeldBack (ref_deleted work h)
  unfolding ref_deleted
  ref_deleted-IsHeldBack h = elim (Option-cases (work.git.head h.repository)) [
    | inl missing ↦ rw (ref_deleted, missing) (λ e. cc e)
    | inr (head, found) ↦ rw (ref_deleted, found) (λ e. refl)
  ]

  fetch_tree-IsHeldBack :
      (start : ℕ) (note : Volume → Volume) (h : Held R) (error : Bytes)
      → (work.fetch h.volume.attributes.ref h.repository).1 ≡ some error
      → IsHeldBack (fetch_tree work start note h)
  unfolding fetch_tree after_fetch
  fetch_tree-IsHeldBack start note h error failed =
      if-either IsHeldBack (not (work.uses_credential h.repository)) (λ unusable e. cc e)
        λ usable.
          let r = (fetch_side work (work.fetch h.volume.attributes.ref h.repository).0).0 in
          rw failed (
            if-either IsHeldBack (work.work_exists r && contains missing_ref error)
              (λ deleted. ref_deleted-IsHeldBack _) (λ lost e. cc e))

  -- Where the node holds the repository, a stage that works although its fetch failed leaves the volume so that
  -- `pushNow` does nothing: it writes neither the repository nor the volume. The passes around it, `pushIfDue` and
  -- `push`, write nothing of the repository either.
  pub stage_tree-push_now :
      (start now : ℕ) (note : Volume → Volume) (rules : Option Policy) (quiet : ℤ) (h : Held R)
      (error : Bytes)
      → work.repository_exists h.repository ≡ true
      → (work.fetch h.volume.attributes.ref h.repository).1 ≡ some error
      → (stage_tree work start note h).1 ≡ ok tt
      → let staged = (stage_tree work start note h).0 in
        (push_now work.git now staged ≡ staged)
        × ((push_if_due work.git rules now quiet staged).repository ≡ staged.repository)
        × ((push work.git now staged).repository ≡ staged.repository)
  unfolding stage_tree
  stage_tree-push_now start now note rules quiet h error there failed = rw there (λ e.
      let held = fetch_tree-IsHeldBack start note h error failed e in
      (
        push_now_held work.git now _ held,
        push_if_due_held work.git rules now quiet _ held,
        push_held work.git now _ held,
      ))
