-- ===== src/Watch/Scan.antt =====
-- watch.go: a scan commits and pushes what the class allows, then records what git still finds.
use git_csi_driver.Prelude.{ℕ, Option, none, some, if◌then◌else◌, ℤ, leb_ℤ}
use git_csi_driver.Policy.{Policy}
use git_csi_driver.Volume.{report_pending, take_health}
use git_csi_driver.Push.{Git, Held, push, push_if_due}
use git_csi_driver.Commit.{TreeGit, pending, commit}

module _ {R : Type 0} (tree : TreeGit R) (git : Git R) where
  abbrev commits : ℕ → Option Policy → ℤ → Held R → Held R
  commits now none quiet h = h
  commits now (some rules) quiet h =
      if leb_ℤ rules.quiesce quiet
      then (let (v, r, done) = commit tree rules h.volume h.repository in
          record { volume = v; repository = r })
      else h

  -- `quiet` is what `quietFor` answered when the scan began.
  unfoldable pub scan : ℕ → ℤ → Held R → Held R
  unfolding commit pending report_pending push_if_due take_health
  scan now quiet h =
      let committed = commits now h.volume.rules quiet h in
      elim (pending tree committed.repository) [
        | none ↦ committed
        | some found ↦
            let reported : Held R = record committed {
              volume = (report_pending found committed.volume).0;
            } in
            let pushed = push_if_due git h.volume.rules now quiet reported in
            record pushed { volume = (take_health now pushed.volume).0 }
      ]

  -- A credential that a republish returned.
  unfoldable pub push_arrived : ℕ → Held R → Held R
  unfolding push take_health
  push_arrived now h =
      let pushed = push git now h in record pushed { volume = (take_health now pushed.volume).0 }
