-- ===== src/Push/Remote.antt =====
-- What a pass that pushes leaves behind: only what the remote answered.
use git_csi_driver.Prelude.{
  false, ℕ, zero, suc, ◌≡◌, refl, ◌⊎◌, inl, inr, Option, none, some, ◌||◌, ◌&&◌, arith, Bool-cases,
  Option-cases, if◌then◌else◌, if-either,
}
use git_csi_driver.Prelude.Text.{Bytes, is_empty}
use git_csi_driver.Volume.{Volume, report_pushed}
use git_csi_driver.Push.{
  Git, Held, Sent, sent, unsent, Attempt, gave_up, tries_again, landed, after_push, attempt_on,
  attempt, rebase_and_retry, rebase_attempts, rejected_push, diverge, remote_of, push_failed,
  finish_push, push_aside, push_rejected, after_send, send, heal_if_merged, push_head, push_now,
}

module _ {R : Type 0} (git : Git R) where
  -- A push of the state before, to the branch, that the remote answered so.
  pub record WasSent (branch : Bytes) (before after : R) (answer : Sent) : Type 0 where
    pub pushed : git.push_to branch before ≡ (after, answer)

  -- The commit is `HEAD` as it is when the push is sent, or as it was read at the start of the pass: for a push of the
  -- repository as it was then, or one after a heal that did not go through.
  abbrev pub Carries : Held R → Bytes → R → Type 0
  Carries h head before =
      (head ≡ git.head_commit before)
      ⊎ ((git.head h.repository ≡ some head)
          × ((before ≡ h.repository)
              ⊎ ((before ≡ (heal_if_merged git h.volume.diverged h).0.repository)
                  × ((heal_if_merged git h.volume.diverged h).1 ≡ false))))

  -- A push goes to the volume's ref or to its side branch and carries such a commit.
  pub record IsAimed (h : Held R) (v : Volume) (branch head : Bytes) (before : R) : Type 0 where
    pub aimed : (branch ≡ v.attributes.ref) ⊎ (branch ≡ v.diverged)
    pub carried : Carries h head before

  -- What a pass did: nothing, a push that the remote took, or a push that failed.
  pub data Outcome (now : ℕ) (h h' : Held R) : Type 0 where
    did_nothing : h' ≡ h → Outcome now h h'
    did_push :
        (branch head : Bytes) (before after : R) (v : Volume)
        → WasSent branch before after sent
        → IsAimed h v branch head before
        → h'.volume ≡ report_pushed now v
        → h'.repository ≡ (git.mark_pushed head after).0
        → Outcome now h h'
    did_fail :
        (branch stderr message : Bytes) (before after : R) (v : Volume)
        → WasSent branch before after (unsent stderr message)
        → h' ≡ push_failed git message (record { volume = v; repository = after })
        → Outcome now h h'

  after_push_sound :
      (answer : R × Sent) (commit : Bytes) {r : R} {c : Bytes}
      → after_push git answer commit ≡ landed r c
      → (answer ≡ (r, sent)) × (c ≡ commit)
  unfolding after_push
  after_push_sound (r, sent) commit h = (cc, cc)
  after_push_sound (r, unsent stderr message) commit h = cc

  finish_push-Outcome :
      (now : ℕ) (h g : Held R) (branch head : Bytes) (before : R) (answer : Sent)
      → WasSent branch before g.repository answer
      → IsAimed h g.volume branch head before
      → Outcome now h (finish_push git now head answer g)
  unfolding finish_push
  finish_push-Outcome now h g branch head before sent w a =
      did_push branch head before g.repository g.volume w a refl refl
  finish_push-Outcome now h g branch head before (unsent stderr message) w a =
      did_fail branch stderr message before g.repository g.volume w refl

  push_aside-Outcome : (now : ℕ) (h g : Held R) → Outcome now h (push_aside git now g)
  unfolding push_aside
  push_aside-Outcome now h g =
      let d = diverge git g in
      let (r, answer) = git.push_to d.volume.diverged d.repository in
      finish_push-Outcome now h (record d { repository = r }) d.volume.diverged
        (git.head_commit d.repository) d.repository answer (record { pushed = refl })
        (record { aimed = inr refl; carried = inl refl })

  attempt_on_landed :
      (ref : Bytes) (r : R) (found : Option Bytes) {r' : R} {c : Bytes}
      → attempt_on git ref r found ≡ landed r' c
      → (before : R) × WasSent ref before r' sent × (c ≡ git.head_commit before)
  unfolding attempt_on
  attempt_on_landed ref r none h = cc
  attempt_on_landed ref r (some upstream) {r' = r'} {c = c} h =
      let rebased = (git.rebase_aside upstream r).0 in
      let parented = (git.reparent_metadata rebased).0 in
      let (e, carried) =
        after_push_sound (git.push_to ref parented) (git.head_commit parented) {r = r'} {c = c}
          (ground arith) in
      (parented, record { pushed = e }, carried)

  attempt_landed :
      (ref : Bytes) (r : R) {r' : R} {c : Bytes}
      → attempt git ref r ≡ landed r' c
      → (before : R) × WasSent ref before r' sent × (c ≡ git.head_commit before)
  unfolding attempt
  attempt_landed ref r h = attempt_on_landed ref (git.fetch_upstream r).0 (git.fetch_upstream r).1 h

  Attempt-cases :
      (a : Attempt git)
      → ((r : R) × (a ≡ gave_up r))
        ⊎ ((r : R) × (a ≡ tries_again r))
        ⊎ ((r : R) × (c : Bytes) × (a ≡ landed r c))
  Attempt-cases (gave_up r) = inl (r, refl)
  Attempt-cases (tries_again r) = inr (inl (r, refl))
  Attempt-cases (landed r c) = inr (inr (r, c, refl))

  -- A commit that landed was pushed to the ref, and the remote took it.
  rebase_and_retry_landed :
      (attempts : ℕ) (ref : Bytes) (r : R)
      → ((rebase_and_retry git attempts ref r).1 ≡ none)
        ⊎ ((c : Bytes) × (before : R) × ((rebase_and_retry git attempts ref r).1 ≡ some c)
            × WasSent ref before (rebase_and_retry git attempts ref r).0 sent
            × (c ≡ git.head_commit before))
  unfolding rebase_and_retry
  rebase_and_retry_landed zero ref r = inl refl
  rebase_and_retry_landed (suc attempts) ref r = elim (Attempt-cases (attempt git ref r)) [
    | inl (r', e) ↦ rw (e, rebase_and_retry) (inl refl)
    | inr (inl (r', e)) ↦ rw (e, rebase_and_retry) (rebase_and_retry_landed attempts ref r')
    | inr (inr (r', c, e)) ↦
        let (before, w, carried) = attempt_landed ref r e in
        rw (e, rebase_and_retry) (inr (c, before, refl, w, carried))
  ]

  push_rejected-Outcome : (now : ℕ) (h g : Held R) → Outcome now h (push_rejected git now g)
  unfolding push_rejected
  push_rejected-Outcome now h g =
      let ref = g.volume.attributes.ref in
      let r = (rebase_and_retry git rebase_attempts ref g.repository).0 in
      elim (rebase_and_retry_landed rebase_attempts ref g.repository) [
        | inl lost ↦
            rw (lost, push_rejected) (push_aside-Outcome now h (record g { repository = r }))
        | inr (c, before, e, w, carried) ↦
            rw (e, push_rejected)
              (finish_push-Outcome now h (record g { repository = r }) ref c before sent w
                (record { aimed = inl refl; carried = inl carried }))
      ]

  after_send-Outcome :
      (now : ℕ) (h g : Held R) (branch head : Bytes) (before : R) (answer : Sent)
      → WasSent branch before g.repository answer
      → IsAimed h g.volume branch head before
      → Outcome now h (after_send git now head answer g)
  unfolding after_send
  after_send-Outcome now h g branch head before sent w a =
      finish_push-Outcome now h g branch head before sent w a
  after_send-Outcome now h g branch head before (unsent stderr message) w a =
      elim (Bool-cases (is_empty g.volume.diverged && rejected_push stderr)) [
        | inl rejected ↦ rw rejected (push_rejected-Outcome now h g)
        | inr other ↦
            rw other (finish_push-Outcome now h g branch head before (unsent stderr message) w a)
      ]

  remote_of_cases :
      (v : Volume) → (remote_of git v ≡ v.attributes.ref) ⊎ (remote_of git v ≡ v.diverged)
  unfolding remote_of
  remote_of_cases v = ground arith

  send-Outcome :
      (now : ℕ) (head : Bytes) (h g : Held R)
      → Carries h head g.repository
      → Outcome now h (send git now head g)
  unfolding send
  send-Outcome now head h g carried =
      let (r, answer) = git.push_to (remote_of git g.volume) g.repository in
      after_send-Outcome now h (record g { repository = r }) (remote_of git g.volume) head
        g.repository answer (record { pushed = refl })
        (record { aimed = remote_of_cases g.volume; carried = carried })

  merged_head :
      (head : Bytes) (h : Held R)
      → git.head h.repository ≡ some head
      → let (h', merged) = heal_if_merged git h.volume.diverged h in
        Carries h (if merged then git.head_commit h'.repository else head) h'.repository
  merged_head head h e =
      let (h', merged) = heal_if_merged git h.volume.diverged h in
      elim (Bool-cases merged) [
        | inl healed ↦ rw healed (inl refl)
        | inr apart ↦ inr (rw apart e, inr (refl, apart))
      ]

  push_head-Outcome :
      (now : ℕ) (head : Bytes) (h : Held R)
      → git.head h.repository ≡ some head
      → Outcome now h (push_head git now head h)
  unfolding push_head
  push_head-Outcome now head h e =
      if-either (Outcome now h) (is_empty h.volume.diverged)
        (λ straight. send-Outcome now head h h (inr (e, inl refl)))
        (λ aside.
          let (h', merged) = heal_if_merged git h.volume.diverged h in
          send-Outcome now (if merged then git.head_commit h'.repository else head) h h'
            (merged_head head h e))

  -- Whatever git and the remote answer, a pass that pushes does one of three things: it changes nothing,
  -- it reports a push that the remote took, to the volume's ref or its side branch, and marks as pushed the commit
  -- of `HEAD` when it was sent, or that of the start of the pass where nothing came between or a heal did not go
  -- through; or it reports the failure of a push.
  pub push_now-Outcome : (now : ℕ) (h : Held R) → Outcome now h (push_now git now h)
  unfolding push_now
  push_now-Outcome now h = elim (Bool-cases (h.volume.ref_deleted || h.volume.credential_lost)) [
    | inl held ↦ rw held (did_nothing refl)
    | inr free ↦ elim (Option-cases (git.head h.repository)) [
      | inl unread ↦ rw (free, unread) (did_nothing refl)
      | inr (head, e) ↦ rw (free, e) (push_head-Outcome now head h e)
    ]
  ]
