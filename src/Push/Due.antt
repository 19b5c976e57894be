-- ===== src/Push/Due.antt =====
-- When a push is made, and when none is.
use git_csi_driver.Prelude.{
  ℕ, ◌≡◌, ◌↔◌, ◌≢◌, ◌⊎◌, ◌<◌, ◌+◌, true, false, ℤ, pos_part, neg_part, ◌≤ℤ◌, arith,
}
use git_csi_driver.Policy.{Policy}
use git_csi_driver.Volume.{is_zero}
use git_csi_driver.Push.{push_due}

-- A maximum of zero is no maximum.
abbrev pub IsLate : Policy → ℕ → ℕ → Type 0
IsLate rules oldest now =
    (is_zero rules.max_latency ≡ false)
    × (oldest ≢ 0)
    × (pos_part rules.max_latency + oldest < now + neg_part rules.max_latency)

-- A push is due exactly when a commit is not pushed and either the tree has been quiet for the quiesce
-- or the oldest commit is older than the maximum latency, where there is one.
pub push_due_iff :
    (rules : Policy) (unpushed oldest now : ℕ) (quiet : ℤ)
    → (push_due rules unpushed oldest now quiet ≡ true)
      ↔ ((unpushed ≢ 0) × ((rules.quiesce ≤ℤ quiet) ⊎ IsLate rules oldest now))
unfolding push_due
push_due_iff rules unpushed oldest now quiet =
    (λ h. (ground arith, ground arith), λ h. ground arith)
