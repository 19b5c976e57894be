-- ===== src/Node/Arrive/Again.antt =====
-- stage.go: a stage that the kubelet repeats.
use git_csi_driver.Prelude.{
  ℕ, ◌≡◌, refl, inl, inr, Bool, true, not, Option, some, if-either, Option-cases, ℤ, Result, err,
  ok,
}
use git_csi_driver.Prelude.Text.{Bytes, same, same_refl, same_iff}
use git_csi_driver.Prelude.Dict.{lookup, lookup-insert_self}
use git_csi_driver.Volume.{Volume, VolumeKind, read_only_claim, inline_volume, writeable_volume}
use git_csi_driver.Records.{StoredVolume}
use git_csi_driver.Push.{Held}
use git_csi_driver.Node.Stage.{stage}
use git_csi_driver.Node.Publish.{Host}
use git_csi_driver.Node.Staged.{StagedState}
use git_csi_driver.Node.Work.{WorkGit, stage_tree}
use git_csi_driver.Node.Arrive.{
  StageCall, Asked, Answer, read_call, arriving, read_only_result, stage_read_only, work_result,
  stage_work, stage_kind_of, stage_asked, node_stage,
}

same_of_eq : (s t : Bytes) → s ≡ t → same s t ≡ true
same_of_eq s t e = rw e (same_refl t)

module _ {H : Type 0} (host : Host H) (work : WorkGit H) (parse_duration : Bytes → Option ℤ)
    (find_claim note : Volume → Volume) (volume_dir : Bytes → Bytes) (has_client : Bool) where
  abbrev Answered : Type 0
  Answered = Answer host work parse_duration find_claim note volume_dir has_client

  abbrev stage_call : ℕ → ℕ → StageCall → StagedState H → Answered
  stage_call = node_stage host work parse_duration find_claim note volume_dir has_client

  -- The volume of a call that answered ok is staged at its path.
  abbrev IsStaged : StageCall → Answered → Type 0
  IsStaged call a =
      a.1 ≡ ok tt
      → (s : StoredVolume) × (lookup call.id a.0.staged ≡ some s) × (s.staging ≡ call.staging)

  read_only-IsStaged :
      (call : StageCall) (n : StagedState H) (h : H) (r : Result Volume)
      → IsStaged call (
          read_only_result host work parse_duration find_claim note volume_dir has_client call n h
            r)
  read_only-IsStaged call n h (err refused) e = cc e
  read_only-IsStaged call n h (ok v) e = (_, lookup-insert_self call.id _ n.staged, refl)

  work-IsStaged :
      (now : ℕ) (call : StageCall) (n : StagedState H) (r : Held H × Result (Unit {0}))
      → IsStaged call
          (work_result host work parse_duration find_claim note volume_dir has_client now call n r)
  work-IsStaged now call n (h, err refused) e = cc e
  work-IsStaged now call n (h, ok staged) e = (_, lookup-insert_self call.id _ n.staged, refl)

  stage_read_only-IsStaged :
      (start now : ℕ) (call : StageCall) (asked : Asked) (n : StagedState H)
      → IsStaged call (
          stage_read_only host work parse_duration find_claim note volume_dir has_client start now
            call asked n)
  unfolding stage_read_only
  stage_read_only-IsStaged start now call asked n =
      let (made, is_made) = host.make_dir (volume_dir call.id) n.host in
      if-either (λ (a : Answered). IsStaged call a) (not is_made) (λ failed e. cc e)
        (λ worked. read_only-IsStaged call n made (
          stage start now (host.repository_at asked.parsed.url made) (
            find_claim (
              arriving host work parse_duration find_claim note volume_dir has_client call asked))))

  stage_work-IsStaged :
      (start now : ℕ) (call : StageCall) (asked : Asked) (n : StagedState H)
      → IsStaged call (
          stage_work host work parse_duration find_claim note volume_dir has_client start now call
            asked n)
  unfolding stage_work
  stage_work-IsStaged start now call asked n =
      let (made, is_made) = host.make_dir (volume_dir call.id) n.host in
      if-either (λ (a : Answered). IsStaged call a) (not is_made) (λ failed e. cc e)
        (λ worked. work-IsStaged now call n (
          stage_tree work start note (record {
            volume =
                arriving host work parse_duration find_claim note volume_dir has_client call asked;
            repository = made;
          })))

  stage_kind-IsStaged :
      (kind : VolumeKind) (start now : ℕ) (call : StageCall) (asked : Asked) (n : StagedState H)
      → IsStaged call (
          stage_kind_of host work parse_duration find_claim note volume_dir has_client kind start
            now call asked n)
  stage_kind-IsStaged read_only_claim start now call asked n =
      stage_read_only-IsStaged start now call asked n
  stage_kind-IsStaged writeable_volume start now call asked n =
      stage_work-IsStaged start now call asked n
  stage_kind-IsStaged inline_volume start now call asked n =
      stage_work-IsStaged start now call asked n

  abbrev asked_for : ℕ → ℕ → StageCall → StagedState H → Result Asked → Answered
  asked_for = stage_asked host work parse_duration find_claim note volume_dir has_client

  asked-IsStaged :
      (start now : ℕ) (call : StageCall) (n : StagedState H) (r : Result Asked)
      → IsStaged call (asked_for start now call n r)
  asked-IsStaged start now call n (err refused) = λ e. cc e
  asked-IsStaged start now call n (ok asked) = elim (Option-cases (lookup call.id n.staged)) [
    | inl missing ↦
        rw (stage_asked, missing) (stage_kind-IsStaged asked.kind start now call asked n)
    | inr (s, found) ↦
        rw (stage_asked, found)
          (if-either (λ (a : Answered). IsStaged call a) (same s.staging call.staging)
            (λ here e. (s, found, (same_iff s.staging call.staging).0 here)) (λ elsewhere e. cc e))
  ]

  asked_again :
      (start now : ℕ) (call : StageCall) (n m : StagedState H) (r : Result Asked) (s : StoredVolume)
      → (asked_for start now call n r).1 ≡ ok tt
      → lookup call.id m.staged ≡ some s
      → s.staging ≡ call.staging
      → (later later_now : ℕ) → asked_for later later_now call m r ≡ (m, ok tt)
  asked_again start now call n m (err refused) s worked found at later later_now = cc worked
  asked_again start now call n m (ok asked) s worked found at later later_now =
      rw (stage_asked, found, same_of_eq s.staging call.staging at) refl

  -- A stage that the kubelet repeats after it answered ok answers ok and changes nothing, whatever the remote does
  -- by then: it fetches nothing and moves no tree.
  pub node_stage_again :
      (start now later later_now : ℕ) (call : StageCall) (n : StagedState H)
      → (stage_call start now call n).1 ≡ ok tt
      → stage_call later later_now call (stage_call start now call n).0
        ≡ ((stage_call start now call n).0, ok tt)
  unfolding node_stage
  node_stage_again start now later later_now call n worked =
      let r = read_call host work parse_duration find_claim note volume_dir has_client call in
      let (s, found, at) = asked-IsStaged start now call n r worked in
      asked_again start now call n _ r s worked found at later later_now
