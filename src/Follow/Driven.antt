-- ===== src/Follow/Driven.antt =====
-- While a volume is wanted, something that the loop waits on will run a pass.
use git_csi_driver.Prelude.{
  ℕ, ◌≡◌, refl, ◌∙◌, ◌⊎◌, inl, inr, Bool, true, false, none, List, [], ◌∷◌, arith, Bool-cases,
  is_some, if-either, map, pos, ltb_ℤ,
}
use git_csi_driver.Prelude.Text.{Bytes}
use git_csi_driver.Prelude.Dict.{Dict, remove}
use git_csi_driver.Follow.{
  Store, Follower, Fetched, Passing, tick, rounds, round, round_end, pull_one, store_at, want_again,
  answered, demand_wait, demand, add, remove_volume, credential_arrived, pulled,
}
use git_csi_driver.Follow.Loop.{
  Loop, arm, settle, Call, adds, removes, demands, returns_credential, call, Case, wakes,
  is_demanded, is_delayed, has_arrived, is_due, is_retried, passes, on_idle, on_demand, select_case,
  Step, called, selected, Run, stays, steps,
}

-- No volume is wanted, or a full slot, the delay of a demand or the timer of a retry will run a pass.
abbrev pub IsDriven : Loop → Type 0
IsDriven l =
    (l.follower.wanted ≡ [])
    ⊎ (l.follower.demanded ≡ true)
    ⊎ (l.follower.arrived ≡ true)
    ⊎ (is_some l.delay_timer ≡ true)
    ⊎ (is_some l.retry_timer ≡ true)

-- While the loop waits, the delay's timer is set.
abbrev pub HasDelay : Loop → Type 0
HasDelay l = (l.waiting ≡ false) ⊎ (is_some l.delay_timer ≡ true)

-- A round that does not fail leaves the wanted volumes as they are.
round_end_cases :
    (wanted : Dict ℕ) (id : Bytes) (a : ℕ) (worked : Bool) (p : Passing)
    → let q = round_end wanted id a worked p in
      (q.failed ≡ true) ⊎ ((q.failed ≡ p.failed) × (q.follower.wanted ≡ p.follower.wanted))
unfolding round_end want_again
round_end_cases wanted id a true p = inr (refl, refl)
round_end_cases wanted id a false p = ground arith

pull_one_cases :
    (fetch : ℕ → Fetched) (now : ℕ) (wanted : Dict ℕ) (a : ℕ) (p : Passing)
    → let q = pull_one fetch now wanted a p in
      (q.failed ≡ true) ⊎ ((q.failed ≡ p.failed) × (q.follower.wanted ≡ p.follower.wanted))
unfolding pull_one
pull_one_cases fetch now wanted a p =
    let (v, worked) = pulled now (fetch a) (p.store a) in
    round_end_cases wanted (p.store a).id a worked (record p { store = store_at a v p.store })

round_cases :
    (fetch : ℕ → Fetched) (now : ℕ) (wanted : Dict ℕ) (a : ℕ) (p : Passing)
    → let q = round fetch now wanted a p in
      (q.failed ≡ true) ⊎ ((q.failed ≡ p.failed) × (q.follower.wanted ≡ p.follower.wanted))
unfolding round
round_cases fetch now wanted a p = ground (arith, pull_one_cases fetch now wanted a p)

-- Once a demanded fetch failed, the pass reports it.
round_failed :
    (fetch : ℕ → Fetched) (now : ℕ) (wanted : Dict ℕ) (a : ℕ) (p : Passing)
    → p.failed ≡ true
    → (round fetch now wanted a p).failed ≡ true
unfolding round pull_one round_end want_again
round_failed fetch now wanted a p h = ground arith

rounds_failed :
    (fetch : ℕ → Fetched) (now : ℕ) (wanted : Dict ℕ) (snapshot : List ℕ) (p : Passing)
    → p.failed ≡ true
    → (rounds fetch now wanted snapshot p).failed ≡ true
unfolding rounds
rounds_failed fetch now wanted [] p h = h
rounds_failed fetch now wanted (a ∷ snapshot) p h =
    rounds_failed fetch now wanted snapshot (round fetch now wanted a p)
      (round_failed fetch now wanted a p h)

rounds_cases :
    (fetch : ℕ → Fetched) (now : ℕ) (wanted : Dict ℕ) (snapshot : List ℕ) (p : Passing)
    → let q = rounds fetch now wanted snapshot p in
      (q.failed ≡ true) ⊎ (q.follower.wanted ≡ p.follower.wanted)
unfolding rounds
rounds_cases fetch now wanted [] p = inr refl
rounds_cases fetch now wanted (a ∷ snapshot) p = elim (round_cases fetch now wanted a p) [
  | inl failed ↦ inl (rounds_failed fetch now wanted snapshot (round fetch now wanted a p) failed)
  | inr (same_flag, same_wanted) ↦
      elim (rounds_cases fetch now wanted snapshot (round fetch now wanted a p)) [
        | inl failed ↦ inl failed
        | inr kept ↦ inr (kept ∙ same_wanted)
      ]
]

tick_cases :
    (fetch : ℕ → Fetched) (now : ℕ) (store : Store) (f : Follower)
    → let q = tick fetch now store f in (q.failed ≡ true) ⊎ (q.follower.wanted ≡ [])
unfolding tick answered
tick_cases fetch now store f =
    rounds_cases fetch now f.wanted (map (λ entry. entry.1) f.volumes)
      (record { store = store; follower = (answered now f).0; failed = false })

-- After a pass the loop is driven, whatever it was before.
passes-IsDriven :
    (demand_min : ℕ) (fetch : ℕ → Fetched) (now drawn : ℕ) (l : Loop)
    → IsDriven (passes demand_min fetch now drawn l)
unfolding passes arm settle
passes-IsDriven demand_min fetch now drawn l = elim (tick_cases fetch now l.store l.follower) [
  | inl failed ↦ rw failed (inr (inr (inr (inr refl))))
  | inr none_left ↦ elim (Bool-cases (tick fetch now l.store l.follower).failed) [
    | inl failed ↦ rw failed (inr (inr (inr (inr refl))))
    | inr worked ↦ rw worked (inl none_left)
  ]
]

passes-HasDelay :
    (demand_min : ℕ) (fetch : ℕ → Fetched) (now drawn : ℕ) (l : Loop)
    → HasDelay l
    → HasDelay (passes demand_min fetch now drawn l)
unfolding passes arm settle
passes-HasDelay demand_min fetch now drawn l h =
    elim (Bool-cases (tick fetch now l.store l.follower).failed) [
      | inl failed ↦ rw failed h
      | inr worked ↦ rw worked h
    ]

call-IsDriven : (c : Call) (l : Loop) → IsDriven l → IsDriven (call c l)
unfolding call add remove_volume demand credential_arrived remove
call-IsDriven (adds id a) l d = d
call-IsDriven (removes id) l d = elim d [ inl e ↦ inl (rw e refl) | inr rest ↦ inr rest ]
call-IsDriven (demands at a) l d = ground arith
call-IsDriven (returns_credential a) l d = ground arith

call-HasDelay : (c : Call) (l : Loop) → HasDelay l → HasDelay (call c l)
unfolding call
call-HasDelay (adds id a) l h = h
call-HasDelay (removes id) l h = h
call-HasDelay (demands at a) l h = h
call-HasDelay (returns_credential a) l h = h

on_idle-IsDriven :
    (demand_min : ℕ) (fetch : ℕ → Fetched) (now drawn : ℕ) (l : Loop)
    → HasDelay l
    → IsDriven (on_idle demand_min fetch now drawn l)
      × HasDelay (on_idle demand_min fetch now drawn l)
unfolding on_idle
on_idle-IsDriven demand_min fetch now drawn l h =
    elim (Bool-cases (ltb_ℤ (pos 0) (demand_wait demand_min now l.follower))) [
      | inl early ↦ rw early (inr (inr (inr (inl refl))), inr refl)
      | inr due ↦ rw due (
        passes-IsDriven demand_min fetch now drawn l,
        passes-HasDelay demand_min fetch now drawn l h,
      )
    ]

on_demand-IsDriven :
    (demand_min : ℕ) (fetch : ℕ → Fetched) (now drawn : ℕ) (l : Loop)
    → HasDelay l
    → IsDriven (on_demand demand_min fetch now drawn l)
      × HasDelay (on_demand demand_min fetch now drawn l)
unfolding on_demand
on_demand-IsDriven demand_min fetch now drawn l h =
    if-either (λ m. IsDriven m × HasDelay m) l.waiting
      (λ waits.
        let timed : is_some l.delay_timer ≡ true = ground arith in
        (inr (inr (inr (inl timed))), inr timed))
      (λ idle. on_idle-IsDriven demand_min fetch now drawn l h)

select_case-IsDriven :
    (demand_min : ℕ) (fetch : ℕ → Fetched) (now drawn : ℕ) (c : Case) (l : Loop)
    → IsDriven l
    → HasDelay l
    → let l' = select_case demand_min fetch now drawn c l in IsDriven l' × HasDelay l'
unfolding select_case arm
select_case-IsDriven demand_min fetch now drawn wakes l d h = (d, h)
select_case-IsDriven demand_min fetch now drawn is_demanded l d h =
    on_demand-IsDriven demand_min fetch now drawn
      (record l { follower = record l.follower { demanded = false } }) h
select_case-IsDriven demand_min fetch now drawn is_delayed l d h =
    let m = record l { delay_timer = none; waiting = false } in
    (
      passes-IsDriven demand_min fetch now drawn m,
      passes-HasDelay demand_min fetch now drawn m (inl refl),
    )
select_case-IsDriven demand_min fetch now drawn has_arrived l d h =
    let m = record l { follower = record l.follower { arrived = false } } in
    (passes-IsDriven demand_min fetch now drawn m, passes-HasDelay demand_min fetch now drawn m h)
select_case-IsDriven demand_min fetch now drawn is_due l d h =
    let m = record l { pull_timer = none } in
    (passes-IsDriven demand_min fetch now drawn m, passes-HasDelay demand_min fetch now drawn m h)
select_case-IsDriven demand_min fetch now drawn is_retried l d h =
    let m = record l { retry_timer = none } in
    (passes-IsDriven demand_min fetch now drawn m, passes-HasDelay demand_min fetch now drawn m h)

pub Step-IsDriven :
    {demand_min : ℕ} {l m : Loop}
    → Step demand_min l m
    → IsDriven l
    → HasDelay l
    → IsDriven m × HasDelay m
Step-IsDriven (called c l) d h = (call-IsDriven c l d, call-HasDelay c l h)
Step-IsDriven (selected fetch now drawn c l) d h = select_case-IsDriven _ fetch now drawn c l d h

-- From a loop that is driven and whose delay is set while it waits, as a new loop is, whatever calls and cases of the `select` follow in whatever order, a volume is wanted only while
-- a slot is full or a timer is set that will run a pass.
pub Run-IsDriven :
    {demand_min : ℕ} {l m : Loop} → Run demand_min l m → IsDriven l → HasDelay l → IsDriven m
Run-IsDriven (stays l) d h = d
Run-IsDriven (steps s r) d h = let (d', h') = Step-IsDriven s d h in Run-IsDriven r d' h'
