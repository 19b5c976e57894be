-- ===== src/Follow/Loop.antt =====
-- `run` of follow.go: its timers, the cases of its `select`, and what other goroutines do between two
-- of them.
use git_csi_driver.Prelude.{ℕ, Bool, true, false, Option, none, some, ℤ, pos, ltb_ℤ, if◌then◌else◌}
use git_csi_driver.Prelude.Text.{Bytes}
use git_csi_driver.Follow.{
  Store, Follower, Fetched, interval, tick, next_retry, demand_wait, demand, add, remove_volume,
  credential_arrived,
}

-- The loop between two steps. A timer is what it was last set to, and `none` where it is stopped.
pub record Loop : Type 0 where
  pub store : Store
  pub follower : Follower
  pub pull_timer : Option ℤ
  pub delay_timer : Option ℤ
  pub retry_timer : Option ℕ
  pub waiting : Bool

-- `arm`
unfoldable pub arm : Loop → Loop
arm l = record l { pull_timer = interval l.store l.follower }

-- `settle`
unfoldable pub settle : ℕ → ℕ → Bool → Loop → Loop
settle demand_min drawn true l =
    let (backoff, wait) = next_retry demand_min drawn l.follower.backoff in
    record l { follower = record l.follower { backoff = backoff }; retry_timer = some wait }
settle demand_min drawn false l = record l {
  follower = record l.follower { backoff = 0 };
  retry_timer = none;
}

-- What other goroutines do.
pub data Call : Type 0 where
  adds : Bytes → ℕ → Call
  removes : Bytes → Call
  demands : ℕ → ℕ → Call
  returns_credential : ℕ → Call

unfoldable pub call : Call → Loop → Loop
call (adds id a) l = record l { follower = add id a l.follower }
call (removes id) l = record l { follower = remove_volume id l.follower }
call (demands at a) l =
    let (store, follower) = demand at a l.store l.follower in
    record l { store = store; follower = follower }
call (returns_credential a) l = record l { follower = credential_arrived a l.store l.follower }

-- The cases of the `select`, but for the end of the context. A channel's case runs where its slot is
-- full, and a timer's where the timer is set.
pub data Case : Type 0 where
  wakes : Case
  is_demanded is_delayed has_arrived is_due is_retried : Case

-- A pass, and the timers that it sets: `f.settle(f.tick(ctx), retry)` and `f.arm(timer)`.
unfoldable pub passes : ℕ → (ℕ → Fetched) → ℕ → ℕ → Loop → Loop
unfolding arm settle
passes demand_min fetch now drawn l =
    let p = tick fetch now l.store l.follower in
    arm (settle demand_min drawn p.failed (record l { store = p.store; follower = p.follower }))

-- The rest of a demand's case, for a loop that does not wait.
unfoldable pub on_idle : ℕ → (ℕ → Fetched) → ℕ → ℕ → Loop → Loop
unfolding passes
on_idle demand_min fetch now drawn l =
    let wait = demand_wait demand_min now l.follower in
    if ltb_ℤ (pos 0) wait
    then record l { delay_timer = some wait; waiting = true }
    else passes demand_min fetch now drawn l

-- The case of a demand, whose slot is empty by now.
unfoldable pub on_demand : ℕ → (ℕ → Fetched) → ℕ → ℕ → Loop → Loop
unfolding on_idle
on_demand demand_min fetch now drawn l =
    if l.waiting then l else on_idle demand_min fetch now drawn l

unfoldable pub select_case : ℕ → (ℕ → Fetched) → ℕ → ℕ → Case → Loop → Loop
unfolding on_demand
select_case demand_min fetch now drawn wakes l = arm l
select_case demand_min fetch now drawn is_demanded l =
    on_demand demand_min fetch now drawn
      (record l { follower = record l.follower { demanded = false } })
select_case demand_min fetch now drawn is_delayed l =
    passes demand_min fetch now drawn (record l { delay_timer = none; waiting = false })
select_case demand_min fetch now drawn has_arrived l =
    passes demand_min fetch now drawn
      (record l { follower = record l.follower { arrived = false } })
select_case demand_min fetch now drawn is_due l =
    passes demand_min fetch now drawn (record l { pull_timer = none })
select_case demand_min fetch now drawn is_retried l =
    passes demand_min fetch now drawn (record l { retry_timer = none })

-- One step of the loop's life: a call, or a case of the `select` with what the repository answers
-- meanwhile.
pub data Step (demand_min : ℕ) : Loop → Loop → Type 0 where
  called : (c : Call) (l : Loop) → Step demand_min l (call c l)
  selected :
      (fetch : ℕ → Fetched) (now drawn : ℕ) (c : Case) (l : Loop)
      → Step demand_min l (select_case demand_min fetch now drawn c l)

pub data Run (demand_min : ℕ) : Loop → Loop → Type 0 where
  stays : (l : Loop) → Run demand_min l l
  steps : {l m n : Loop} → Step demand_min l m → Run demand_min m n → Run demand_min l n
