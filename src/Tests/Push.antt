-- ===== src/Tests/Push.antt =====
-- Pushes on concrete input.
use git_csi_driver.Prelude.{◌≡◌, refl, ◌⊎◌, inl, true, List, [], ◌∷◌, pos}
use git_csi_driver.Prelude.Text.{Bytes, codes}
use git_csi_driver.Volume.{no_changes}
use git_csi_driver.Push.{Git, Held, push_due, push_now}
use git_csi_driver.Push.Remote.{Outcome, push_now-Outcome}
use git_csi_driver.Push.Reconcile.{reconcile, rebase, reconcile_keeps}
use git_csi_driver.Tests.Data.{a_volume, a_git}

abbrev held : Held (List Bytes)
held = record { volume = a_volume; repository = [] }

-- A volume's commits go to its ref.
push_now_runs : (push_now a_git 7 held).repository ≡ codes "main" ∷ []
unfolding push_now
push_now_runs = refl

push_now-Outcome_example : Outcome a_git 7 held (push_now a_git 7 held)
push_now-Outcome_example = push_now-Outcome a_git 7 held

reconcile_keeps_example :
    ((reconcile a_git (codes "h") (codes "u") [] held).0.repository ≡ [])
    ⊎ ((no_changes (a_git.pending []) ≡ true)
        × (reconcile a_git (codes "h") (codes "u") [] held ≡ rebase a_git (codes "u") held))
reconcile_keeps_example = reconcile_keeps a_git (codes "h") (codes "u") [] held (inl refl)

-- A tree that diverged, whose commit upstream holds, and that has a write that is not committed.
abbrev merged_git : Git (List Bytes)
merged_git = record a_git {
  ancestor = λ r a b. true;
  pending = λ r. record { path = codes "f"; size = pos 1 } ∷ [];
  diverged_branch = λ r. codes "main.v";
  reset = λ c r. (c ∷ r, true);
}

-- A stage resets it to upstream.
reset_runs : (reconcile merged_git (codes "h") (codes "u") [] held).0.repository ≡ codes "u" ∷ []
unfolding reconcile git_csi_driver.Push.Reconcile.heal_or_hold git_csi_driver.Push.Reconcile.heal
    git_csi_driver.Push.healed
reset_runs = refl
