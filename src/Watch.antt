-- ===== src/Watch.antt =====
-- watch.go: when the driver reads what a pod wrote in a work tree. The loop of a watcher waits until the
-- tree has rested; `Rested` has what its timers promise, `Scan` what a scan does, `Events` the events of
-- inotify. A time is in nanoseconds, the ticker of the sweep fires at any time.
pub mod Events
pub mod Rested
pub mod Scan
use git_csi_driver.Prelude.{
  ℕ, ◌+◌, ◌-◌, Bool, true, false, Option, none, some, List, [], ◌∷◌, leb, if◌then◌else◌, ℤ, pos,
  pos_part, neg_part, sub_ℕ,
}
use git_csi_driver.Policy.{Policy}
use git_csi_driver.Arming.{class_changes}

-- The state of a watcher. `rules` is what `policyNow` answers of the volume, `timer` the time at which the
-- quiesce timer runs out, and the scans the times of those that the loop ran, the last one first.
pub record Watcher : Type 0 where
  pub rules : Option Policy
  pub quiesce : ℤ
  pub timer : Option ℕ
  -- The three channels of one slot.
  pub changes : Bool
  pub classed : Bool
  pub arrived : Bool
  pub written : ℕ
  pub scans : List ℕ

unfoldable pub rest : Watcher → ℤ
rest w = elim w.rules [ none ↦ w.quiesce | some rules ↦ rules.quiesce ]

unfoldable pub quiet_for : ℕ → Watcher → ℤ
quiet_for now w = sub_ℕ now w.written

unfoldable pub nudge : ℕ → Watcher → Watcher
nudge now w = record w { written = now; changes = true }

unfoldable pub class_changed : Watcher → Watcher
class_changed w = record w { classed = true }

-- `time.Timer.Reset`: a duration below zero runs out at once.
unfoldable pub reset : ℕ → ℤ → Watcher → Watcher
reset now wait w = record w { timer = some (now + pos_part wait) }

-- `max(0, rest - quiet)`
unfoldable pub rest_left : ℤ → ℤ → ℤ
rest_left wait quiet = pos (pos_part wait + neg_part quiet - (neg_part wait + pos_part quiet))

-- The start of the watch, and the first scan.
unfoldable pub watch : ℕ → ℤ → Option Policy → Watcher
unfolding rest reset
watch now quiesce rules =
    let fresh : Watcher = record {
      rules = rules;
      quiesce = quiesce;
      timer = none;
      changes = false;
      classed = false;
      arrived = false;
      written = now;
      scans = now ∷ [];
    } in
    reset now (rest fresh) fresh

-- The cases of the `select` that do not end the loop.
pub data Case : Type 0 where
  on_changes on_classed on_quiesce on_sweep on_arrived : Case

-- Whether the timer has run out.
abbrev pub ran_out : ℕ → Option ℕ → Bool
ran_out now none = false
ran_out now (some at) = leb at now

-- None where the case is not ready.
unfoldable pub select_case : ℕ → Case → Watcher → Option Watcher
unfolding rest quiet_for reset rest_left
select_case now on_changes w =
    if w.changes then some (reset now (rest w) (record w { changes = false })) else none
select_case now on_classed w =
    if w.classed
    then some (reset now (rest_left (rest w) (quiet_for now w)) (record w { classed = false }))
    else none
select_case now on_quiesce w =
    if ran_out now w.timer then some (record w { timer = none; scans = now ∷ w.scans }) else none
select_case now on_sweep w = some (record w { scans = now ∷ w.scans })
select_case now on_arrived w = if w.arrived then some (record w { arrived = false }) else none

-- The rules that arming gives the volume, of which `armed` tells the watch.
unfoldable pub give_rules : Option Policy → Watcher → Watcher
unfolding class_changed
give_rules rules w =
    let given : Watcher = record w { rules = rules } in
    if class_changes rules w.rules then class_changed given else given
