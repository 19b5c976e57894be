-- ===== src/Push.antt =====
-- push.go, diverged.go and reconcile.go: how a writeable volume's commits reach the remote. `Remote`
-- has where a push goes, `Due` when one is made, `Reconcile` what a stage does with an upstream that
-- moved.
--
-- git and the remote are the record `Git`: an operation answers its result and the next state of the
-- repository `R`, the work tree and the remote together. The Events, the log, the gauges and the
-- claim's name are left out; what is kept of them is the volume's report. A failure's text is a
-- parameter's answer. A push takes its credential first, and a credential whose files cannot be
-- written is a push that fails with no word of git's.
pub mod Due
pub mod Remote
pub mod Reconcile
use git_csi_driver.Prelude.{
  ℕ, zero, suc, Bool, true, false, not, ◌&&◌, ◌||◌, Option, none, some, List, [], ◌∷◌, ◌++◌, ℤ, pos,
  sub_ℕ, leb_ℤ, ltb_ℤ, ◌==◌, if◌then◌else◌, length,
}
use git_csi_driver.Prelude.Text.{Bytes, codes, same, is_empty, has_prefix}
use git_csi_driver.Policy.{Policy}
use git_csi_driver.Volume.{
  Volume, Change, no_changes, is_zero, report_diverged, report_healed, report_unpushed,
  report_pushed, report_trouble,
}
use git_csi_driver.Volume.Credential.{waits_for_credential}

unfoldable pub side_branch : Bytes → Bytes → Bytes
side_branch ref id = ref ++ b'.' ∷ id

-- `strings.Contains`
unfoldable pub contains : Bytes → Bytes → Bool
contains word [] = is_empty word
contains word (c ∷ s) = has_prefix word (c ∷ s) || contains word s

unfoldable pub rejected_push : Bytes → Bool
rejected_push stderr =
    contains (codes "rejected") stderr
    || contains (codes "non-fast-forward") stderr
    || contains (codes "fetch first") stderr

-- What a push answers: that it worked, or git's stderr and the error's message.
pub data Sent : Type 0 where
  sent : Sent
  unsent : Bytes → Bytes → Sent

pub record Git (R : Type 0) : Type 0 where
  -- `HEAD`, and `none` where it cannot be read.
  pub head : R → Option Bytes
  -- `refCommit(ctx, "HEAD")`
  pub head_commit : R → Bytes
  -- `refCommit(ctx, pushedRef)`
  pub pushed_commit : R → Bytes
  pub ancestor : R → Bytes → Bytes → Bool
  -- `unpushed`: the count, and the time of the oldest.
  pub unpushed : R → Option (ℕ × ℕ)
  pub pending : R → List Change
  -- `divergedBranch`
  pub diverged_branch : R → Bytes
  -- `git push` of the ref to a branch of the remote.
  pub push_to : Bytes → R → R × Sent
  -- `fetchUpstream`, `none` where it fails.
  pub fetch_upstream : R → R × Option Bytes
  -- `rebaseAside` onto the commit: whether it worked.
  pub rebase_aside : Bytes → R → R × Bool
  pub reparent_metadata : R → R × Bool
  pub mark_pushed : Bytes → R → R × Bool
  pub mark_diverged : Bytes → R → R
  pub clear_diverged : R → R × Bool
  pub delete_branch : Bytes → R → R
  pub reset : Bytes → R → R × Bool
  -- `restore`, the metadata of the tree.
  pub restore : R → R

unfoldable pub push_due : Policy → ℕ → ℕ → ℕ → ℤ → Bool
push_due rules unpushed oldest now quiet =
    if unpushed == 0
    then false
    else if leb_ℤ rules.quiesce quiet
    then true
    else not (is_zero rules.max_latency)
      && not (oldest == 0)
      && ltb_ℤ rules.max_latency (sub_ℕ now oldest)

abbrev pub rebase_attempts : ℕ
rebase_attempts = 3

-- The volume and the repository.
pub record Held (R : Type 0) : Type 0 where
  pub volume : Volume
  pub repository : R

module _ {R : Type 0} (git : Git R) where
  -- `diverge`
  unfoldable pub diverge : Held R → Held R
  diverge h =
      let branch = side_branch h.volume.attributes.ref h.volume.id in
      record {
        volume = report_diverged branch h.volume;
        repository = git.mark_diverged branch h.repository;
      }

  -- `healed`: whether the state was written.
  unfoldable pub healed : Held R → Held R × Bool
  healed h =
      let (r, cleared) = git.clear_diverged h.repository in
      if cleared
      then (record { volume = report_healed h.volume; repository = r }, true)
      else (record h { repository = r }, false)

  -- `healInTree`
  unfoldable pub heal_in_tree : Bytes → Bytes → Held R → Held R × Bool
  unfolding healed
  heal_in_tree branch upstream h =
      let (r, rebased) = git.rebase_aside upstream h.repository in
      if rebased
      then healed (record h { repository = git.delete_branch branch r })
      else (record h { repository = r }, false)

  unfoldable pub heal_if_merged : Bytes → Held R → Held R × Bool
  unfolding heal_in_tree
  heal_if_merged branch h =
      let (r, found) = git.fetch_upstream h.repository in
      elim found [
        | none ↦ (record h { repository = r }, false)
        | some upstream ↦
            if git.ancestor r (git.pushed_commit r) upstream
            then heal_in_tree branch upstream (record h { repository = r })
            else (record h { repository = r }, false)
      ]

  -- One attempt of `rebaseAndRetry`: it gives up, tries again or landed.
  pub data Attempt : Type 0 where
    gave_up : R → Attempt
    tries_again : R → Attempt
    landed : R → Bytes → Attempt

  -- The end of an attempt: the push of the rebased tree.
  unfoldable pub after_push : R × Sent → Bytes → Attempt
  after_push (r, sent) commit = landed r commit
  after_push (r, unsent stderr message) commit = tries_again r

  -- An attempt, with what the fetch found.
  unfoldable pub attempt_on : Bytes → R → Option Bytes → Attempt
  unfolding after_push
  attempt_on ref fetched none = gave_up fetched
  attempt_on ref fetched (some upstream) =
      let (rebased, worked) = git.rebase_aside upstream fetched in
      let (parented, joined) = git.reparent_metadata rebased in
      if not worked
      then gave_up rebased
      else if not joined
      then gave_up parented
      else after_push (git.push_to ref parented) (git.head_commit parented)

  unfoldable pub attempt : Bytes → R → Attempt
  unfolding attempt_on
  attempt ref r = let (fetched, found) = git.fetch_upstream r in attempt_on ref fetched found

  -- The loop of `rebaseAndRetry`, for the attempts that are left.
  unfoldable pub rebase_and_retry : ℕ → Bytes → R → R × Option Bytes
  rebase_and_retry zero ref r = (r, none)
  rebase_and_retry (suc attempts) ref r = elim (attempt ref r) [
    | gave_up r' ↦ (r', none)
    | tries_again r' ↦ rebase_and_retry attempts ref r'
    | landed r' commit ↦ (r', some commit)
  ]

  -- Where a push goes: the side branch of a volume that diverged, and the ref of every other.
  unfoldable pub remote_of : Volume → Bytes
  remote_of v = if is_empty v.diverged then v.attributes.ref else v.diverged

  -- `pushFailed`
  unfoldable pub push_failed : Bytes → Held R → Held R
  push_failed message h = record h { volume = (report_trouble message h.volume).0 }

  -- The end of `pushNow`, with the commit that the push carried.
  unfoldable pub finish_push : ℕ → Bytes → Sent → Held R → Held R
  unfolding push_failed
  finish_push now head sent h = record {
    volume = report_pushed now h.volume;
    repository = (git.mark_pushed head h.repository).0;
  }
  finish_push now head (unsent stderr message) h = push_failed message h

  -- A push to the ref that was rejected, whose rebases did not land.
  unfoldable pub push_aside : ℕ → Held R → Held R
  unfolding finish_push diverge
  push_aside now h =
      let d = diverge h in
      let head = git.head_commit d.repository in
      let (r, answer) = git.push_to d.volume.diverged d.repository in
      finish_push now head answer (record d { repository = r })

  -- A push to the ref that was rejected.
  unfoldable pub push_rejected : ℕ → Held R → Held R
  unfolding push_aside rebase_and_retry
  push_rejected now h =
      let (r, landing) = rebase_and_retry rebase_attempts h.volume.attributes.ref h.repository in
      elim landing [
        | none ↦ push_aside now (record h { repository = r })
        | some commit ↦ finish_push now commit sent (record h { repository = r })
      ]

  -- What follows a push to a volume's remote.
  unfoldable pub after_send : ℕ → Bytes → Sent → Held R → Held R
  unfolding push_rejected finish_push
  after_send now head sent h = finish_push now head sent h
  after_send now head (unsent stderr message) h =
      if is_empty h.volume.diverged && rejected_push stderr
      then push_rejected now h
      else finish_push now head (unsent stderr message) h

  unfoldable pub send : ℕ → Bytes → Held R → Held R
  unfolding after_send remote_of
  send now head h =
      let (r, answer) = git.push_to (remote_of h.volume) h.repository in
      after_send now head answer (record h { repository = r })

  -- `pushNow` past its guards, with the commit of `HEAD`.
  unfoldable pub push_head : ℕ → Bytes → Held R → Held R
  unfolding send heal_if_merged
  push_head now head h =
      if is_empty h.volume.diverged
      then send now head h
      else let (h', merged) = heal_if_merged h.volume.diverged h in
        send now (if merged then git.head_commit h'.repository else head) h'

  -- `pushNow`
  unfoldable pub push_now : ℕ → Held R → Held R
  unfolding push_head
  push_now now h =
      if h.volume.ref_deleted || waits_for_credential h.volume
      then h
      else elim (git.head h.repository) [ none ↦ h | some head ↦ push_head now head h ]

  -- `counted`
  unfoldable pub counted : Held R → Option (Held R × ℕ × ℕ)
  counted h = elim (git.unpushed h.repository) [
    | none ↦ none
    | some (count, oldest) ↦
        some (record h { volume = report_unpushed count oldest h.volume }, count, oldest)
  ]

  -- `pushIfDue`
  unfoldable pub push_if_due : Option Policy → ℕ → ℤ → Held R → Held R
  unfolding counted push_due push_now
  push_if_due none now quiet h = h
  push_if_due (some rules) now quiet h = elim (counted h) [
    | none ↦ h
    | some (h', count, oldest) ↦
        if push_due rules count oldest now quiet then push_now now h' else h'
  ]

  -- `push`, which a flush and a returned credential run. The failure's text stands for the message, which
  -- has the count in it.
  unfoldable pub push : ℕ → Held R → Held R
  unfolding counted push_now push_failed
  push now h = elim (counted h) [
    | none ↦ h
    | some (h', count, oldest) ↦
        if count == 0
        then h'
        else if waits_for_credential h'.volume
        then push_failed (codes "the commits stay on this node") h'
        else push_now now h'
  ]
