-- ===== src/Tests/Follow.antt =====
-- Loops on concrete input.
use git_csi_driver.Prelude.{
  ℕ, ◌≡◌, refl, ◌⊎◌, ◌≤◌, ◌<◌, ◌*◌, ◌^◌, ◌/◌, inl, inr, true, false, List, [], ◌∷◌, none, some, pos,
  arith, All, Bool, is_some, Option,
}
use git_csi_driver.Prelude.Text.{Bytes, codes}
use git_csi_driver.Follow.{
  Fetched, unfetched, next_retry, interval, max_demand_retry, timers_of, store_at,
}
use git_csi_driver.Follow.Loop.{
  Loop, Run, stays, steps, selected, demands, is_demanded, call, select_case,
}
use git_csi_driver.Follow.Kept.{Ended, IsWanted, IsArmed, Run-IsKept}
use git_csi_driver.Follow.Retry.{next_retry_bounds}
use git_csi_driver.Follow.Watch.{Node, read, act_on, act_on_again}
use git_csi_driver.Prelude.Dict.{insert, remove}
use git_csi_driver.Cluster.{PersistentVolume}
use git_csi_driver.Follow.Seen.{Reaches, begins, reads, deletes, Exists, tombstone, Reaches-Exists}
use git_csi_driver.Tests.Data.{team_volume, a_volume, a_follower, a_loop}

abbrev no_remote : ℕ → Fetched
no_remote a = unfetched (codes "no route")

abbrev failed_loop : Loop
failed_loop = select_case 10 no_remote 5 0 is_demanded (call (demands 4 0) a_loop)

-- A demand whose fetch fails arms the retry.
failed_demand : is_some failed_loop.retry_timer ≡ true
unfolding select_case call git_csi_driver.Follow.demand_wait git_csi_driver.Follow.demand
    git_csi_driver.Follow.on_loop git_csi_driver.Prelude.Dict.lookup
    git_csi_driver.Prelude.Text.same git_csi_driver.Follow.tick store_at
    git_csi_driver.Follow.pulled git_csi_driver.Follow.refresh git_csi_driver.Prelude.Dict.insert
    git_csi_driver.Follow.want_again
failed_demand = refl

-- A loop on which the volume is wanted, and a pass over it whose fetch fails.
abbrev a_wanting_loop : Loop
a_wanting_loop = record a_loop {
  follower = record a_follower { wanted = (codes "v", 0) ∷ []; demanded = true };
}

abbrev a_failed_loop : Loop
a_failed_loop = select_case 10 no_remote 5 0 is_demanded a_wanting_loop

abbrev a_failed_run : Run 10 a_wanting_loop a_failed_loop
a_failed_run = steps (selected no_remote 5 0 is_demanded a_wanting_loop) (stays a_failed_loop)

Run-IsKept_example :
    Ended (codes "v") 0 10 a_failed_run
    ⊎ (IsWanted (codes "v") 0 a_failed_loop × IsArmed (codes "v") 0 10 a_failed_loop)
unfolding git_csi_driver.Prelude.Dict.lookup git_csi_driver.Prelude.Text.same
Run-IsKept_example =
    Run-IsKept (codes "v") 0 10 a_failed_run (refl, refl, refl) (inr (inl refl)) (inl refl)

next_retry_bounds_example :
    let (next, wait) = next_retry 10000000000 77 20000000000 in
    (wait ≤ max_demand_retry) × (10000000000 ≤ wait) × (wait ≤ next) × (next / 2 ≤ wait)
next_retry_bounds_example = next_retry_bounds 10000000000 77 20000000000 (omega arith)

abbrev a_node : Node
a_node = record {
  store = λ a. a_volume;
  staged = (codes "v", 0) ∷ [];
  followers = (codes "h/a", a_follower) ∷ [];
  seen = [];
}

act_on_again_example :
    act_on (λ url. codes "h/a") (codes "v") 9 8 (act_on (λ url. codes "h/a") (codes "v") 9 7 a_node)
    ≡ act_on (λ url. codes "h/a") (codes "v") 9 7 a_node
act_on_again_example = act_on_again (λ url. codes "h/a") (codes "v") 9 7 8 a_node

abbrev asked_volume : PersistentVolume
asked_volume = record team_volume {
  annotations = (codes "git.liken.sh/pull-requested-at", codes "now") ∷ [];
}

abbrev other_volume : PersistentVolume
other_volume = record team_volume { name = codes "other"; source = none }

abbrev an_hour : Bytes → Option ℕ
an_hour text = some 3600

abbrev watched : Node
watched =
    git_csi_driver.Follow.Seen.deleted (tombstone (some other_volume))
      (read (λ url. codes "h/a") an_hour 7 asked_volume a_node)

watched_runs : git_csi_driver.Prelude.Dict.lookup (codes "v") watched.seen ≡ some 3600
unfolding git_csi_driver.Prelude.Dict.lookup git_csi_driver.Follow.Seen.deleted read
    git_csi_driver.Follow.Watch.volume_handle git_csi_driver.Prelude.Text.same
    git_csi_driver.Prelude.Dict.value_of act_on git_csi_driver.Follow.Watch.act_on_staged
    git_csi_driver.Volume.take_demand git_csi_driver.Follow.Watch.node_demand
    git_csi_driver.Attributes.follows store_at git_csi_driver.Attributes.pull_every
    git_csi_driver.Follow.Watch.loop_name insert
watched_runs = refl

Reaches-Exists_example :
    Exists (remove other_volume.name (insert asked_volume.name asked_volume [])) (codes "v")
unfolding git_csi_driver.Prelude.Dict.lookup insert git_csi_driver.Prelude.Text.same
Reaches-Exists_example =
    Reaches-Exists {name_of = λ url. codes "h/a"} {parse_time = an_hour} {n = watched} (codes "v")
      3600
      (deletes (tombstone (some other_volume)) other_volume refl (λ last e. cc e)
        (reads 7 asked_volume (λ last e. cc e) (begins a_node refl)))
      watched_runs
