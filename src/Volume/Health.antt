-- ===== src/Volume/Health.antt =====
-- The health report of a volume.
use git_csi_driver.Prelude.{ℕ, ◌≡◌, refl, ◌≢◌, ◌↔◌, ◌⊎◌, true, false, List, [], ◌∷◌, arith}
use git_csi_driver.Prelude.Text.{Bytes, is_empty}
use git_csi_driver.Volume.{
  Volume, VolumeKind, writeable_volume, is_writeable, Change, no_changes, overdue,
  credential_report, standing_case, standing_report,
}

is_empty_iff : (s : Bytes) → (is_empty s ≡ true) ↔ (s ≡ [])
is_empty_iff [] = (λ h. refl, λ h. refl)
is_empty_iff (c ∷ s) = (λ h. cc, λ h. cc)

no_changes_iff : (l : List Change) → (no_changes l ≡ true) ↔ (l ≡ [])
no_changes_iff [] = (λ h. refl, λ h. refl)
no_changes_iff (c ∷ s) = (λ h. cc, λ h. cc)

is_writeable_iff : (k : VolumeKind) → (is_writeable k ≡ true) ↔ (k ≡ writeable_volume)
is_writeable_iff VolumeKind.inline_volume = (λ h. cc, λ h. cc)
is_writeable_iff VolumeKind.read_only_claim = (λ h. cc, λ h. cc)
is_writeable_iff writeable_volume = (λ h. refl, λ h. refl)

-- Nothing is wrong with the volume at the time.
pub record IsHealthy (now : ℕ) (v : Volume) : Type 0 where
  pub has_credential : v.credential_lost ≡ false
  pub worked : v.trouble ≡ []
  pub has_ref : v.ref_deleted ≡ false
  pub on_ref : v.diverged ≡ []
  pub readable : v.invalid ≡ []
  pub all_small : v.skipped ≡ []
  pub in_time : overdue now v ≡ false
  pub none_left : v.abandoned ≡ []
  pub may_commit : (v.kind ≢ writeable_volume) ⊎ (v.armed ≡ true) ⊎ (v.pending ≡ [])

-- The report is normal exactly when nothing of the volume's state is wrong.
pub standing_report_iff :
    (now : ℕ) (v : Volume) → ((standing_report now v).0 ≡ false) ↔ IsHealthy now v
unfolding standing_report standing_case credential_report
standing_report_iff now v = (
  λ h. record {
    has_credential = ground arith;
    worked = ground (arith, is_empty_iff v.trouble);
    has_ref = ground arith;
    on_ref = ground (arith, is_empty_iff v.diverged);
    readable = ground (arith, is_empty_iff v.invalid);
    all_small = ground (arith, no_changes_iff v.skipped);
    in_time = ground arith;
    none_left = ground (arith, is_empty_iff v.abandoned);
    may_commit = ground (arith, no_changes_iff v.pending, is_writeable_iff v.kind);
  },
  λ h. ground (
    arith,
    h.has_credential,
    h.worked,
    h.has_ref,
    h.on_ref,
    h.readable,
    h.all_small,
    h.in_time,
    h.none_left,
    h.may_commit,
    is_empty_iff v.trouble,
    is_empty_iff v.diverged,
    is_empty_iff v.invalid,
    no_changes_iff v.skipped,
    is_empty_iff v.abandoned,
    no_changes_iff v.pending,
    is_writeable_iff v.kind,
  ),
)
