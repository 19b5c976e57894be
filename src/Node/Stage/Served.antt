-- ===== src/Node/Stage/Served.antt =====
-- node.go: when a stage works, and what the volume then reports.
use git_csi_driver.Prelude.{
  ℕ, ◌≡◌, refl, sym, ap, ◌∙◌, ◌⊎◌, inl, inr, Bool, true, false, ◌||◌, Option, none, some, [], Error,
  Result, err, ok, guard, >>=-eq-ok, internal,
}
use mathlib.Core.Path.{subst}
use git_csi_driver.Prelude.Text.{Bytes}
use git_csi_driver.Attributes.{OfflinePolicy, offline_refuse, offline_allow_stale}
use git_csi_driver.Volume.{
  Volume, answer_demands_before, report_commit, report_trouble, take_health,
}
use git_csi_driver.Node.Stage.{Repository, failed, answered, troubled, copy_of, fetch_depth, stage}

-- What the fetch of a stage answers.
abbrev pub fetch_error : Repository → Volume → Option Bytes
fetch_error repo v = repo.fetch v.attributes.ref (fetch_depth repo v.attributes.depth)

-- The repository is there, its fetch worked or the volume allows a stale copy, and the commit that the ref
-- resolves to is placed.
abbrev pub IsServed : Repository → Volume → Bytes → Type 0
IsServed repo v commit =
    ((repo.exists || repo.creates) ≡ true)
    × (repo.uses_credential ≡ true)
    × ((fetch_error repo v ≡ none) ⊎ (v.attributes.offline ≡ offline_allow_stale))
    × (repo.resolve v.attributes.ref ≡ some commit)
    × (repo.place commit ≡ true)

copy_of_sound :
    (offline : OfflinePolicy) (fetched resolved : Option Bytes) (commit : Bytes)
    → copy_of offline fetched resolved ≡ ok commit
    → ((fetched ≡ none) ⊎ (offline ≡ offline_allow_stale)) × (resolved ≡ some commit)
unfolding copy_of
copy_of_sound offline none none commit e = cc e
copy_of_sound offline none (some c) commit e = (inl refl, cc e)
copy_of_sound offline_refuse (some message) resolved commit e = cc e
copy_of_sound offline_allow_stale (some message) none commit e = cc e
copy_of_sound offline_allow_stale (some message) (some c) commit e = (inr refl, cc e)

ok-injective : {v w : Volume} → Path (Result Volume) (ok v) (ok w) → v ≡ w
ok-injective {v} e = ap {A = Result Volume} (λ r. elim r [ err refused ↦ v | ok value ↦ value ]) e

guard-eq-ok :
    (test : Bool) (refusal : Error) {passed : Unit} → guard test refusal ≡ ok passed → test ≡ true
guard-eq-ok true refusal e = refl
guard-eq-ok false refusal e = cc e

abbrev pub served_volume : ℕ → ℕ → Bytes → Option Bytes → Volume → Volume
served_volume start now commit fetched v =
    (take_health now (troubled fetched (report_commit commit (answered fetched start v)))).0

final_fields :
    (start now : ℕ) (commit : Bytes) (fetched : Option Bytes) (v : Volume)
    → ((served_volume start now commit fetched v).commit ≡ commit)
      × ((served_volume start now commit fetched v).trouble
          ≡ elim fetched [ none ↦ [] | some message ↦ message ])
      × ((served_volume start now commit fetched v).answered ≡ elim fetched [
        | none ↦ (answer_demands_before start v).answered
        | some message ↦ v.answered
      ])
unfolding take_health troubled report_trouble answer_demands_before
final_fields start now commit none v = (refl, refl, refl)
final_fields start now commit (some message) v = (refl, refl, refl)

-- A stage that works serves a commit that the ref resolves to, from a fetch that worked or, if the volume
-- allows it, from the copy that the node holds; then the volume reports that commit, and the error of the
-- fetch as its trouble where there was one, and after a fetch that worked it answers the demands from before
-- its start, after one that failed the demands that it answered before.
pub stage-IsServed :
    (start now : ℕ) (repo : Repository) (v v' : Volume)
    → stage start now repo v ≡ ok v'
    → IsServed repo v v'.commit
      × (v'.trouble ≡ elim (fetch_error repo v) [ none ↦ [] | some message ↦ message ])
      × (v'.answered ≡ elim (fetch_error repo v) [
        | none ↦ (answer_demands_before start v).answered
        | some message ↦ v.answered
      ])
unfolding stage
stage-IsServed start now repo v v' e =
    let (u1, made, e1) = >>=-eq-ok (guard (repo.exists || repo.creates) (failed internal)) _ e in
    let (u2, used, e2) = >>=-eq-ok (guard repo.uses_credential (failed internal)) _ e1 in
    let (commit, copied, e3) =
      >>=-eq-ok (copy_of v.attributes.offline (fetch_error repo v) (repo.resolve v.attributes.ref))
        _ e2 in
    let (u4, placed, e4) = >>=-eq-ok (guard (repo.place commit) (failed internal)) _ e3 in
    let final = final_fields start now commit (fetch_error repo v) v in
    let same_volume : served_volume start now commit (fetch_error repo v) v ≡ v' =
      ok-injective e4 in
    let (sound, found) = copy_of_sound v.attributes.offline (fetch_error repo v) _ commit copied in
    let at : v'.commit ≡ commit = sym (ap (λ (w : Volume). w.commit) same_volume) ∙ final.0 in
    (
      subst (IsServed repo v) (sym at)
          (guard-eq-ok _ _ made, guard-eq-ok _ _ used, sound, found, guard-eq-ok _ _ placed),
      sym (ap (λ (w : Volume). w.trouble) same_volume) ∙ final.1,
      sym (ap (λ (w : Volume). w.answered) same_volume) ∙ final.2,
    )
