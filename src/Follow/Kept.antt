-- ===== src/Follow/Kept.antt =====
-- follow.go and demand.go: a volume that a demand named stays wanted until a pass has served it.
use git_csi_driver.Prelude.{
  ℕ, ◌≡◌, refl, sym, ap, ◌∙◌, ◌⊎◌, inl, inr, Bool, true, false, not, ◌||◌, Option, none, some, List,
  [], ◌∷◌, arith, ◌==◌, ==_iff, if-either, Bool-cases, is_some, pos, ltb_ℤ,
}
use mathlib.Core.Path.{subst}
use git_csi_driver.Prelude.Text.{Bytes, same, same_iff}
use git_csi_driver.Prelude.Dict.{
  Dict, lookup, insert, lookup-insert, lookup-insert_self, lookup-remove,
}
use git_csi_driver.Volume.{Volume, report_trouble, answer_demands_before}
use git_csi_driver.Volume.Credential.{waits_for_credential}
use git_csi_driver.Follow.{
  Store, store_at, Follower, Fetched, Passing, add, remove_volume, demand, credential_arrived,
  demand_wait, is_at, on_loop, refresh, pulled, want_again, round_end, pull_one, round, rounds,
  answered, tick,
}
use git_csi_driver.Follow.Loop.{
  Loop, arm, settle, Call, adds, removes, demands, returns_credential, call, Case, wakes,
  is_demanded, is_delayed, has_arrived, is_due, is_retried, passes, on_idle, on_demand, select_case,
  Step, called, selected, Run, stays, steps,
}
use git_csi_driver.Follow.Driven.{IsDriven, HasDelay, Step-IsDriven}
use git_csi_driver.Follow.Pass.{among, addresses, round_store}

lookup-among :
    (id : Bytes) (a : ℕ) (volumes : Dict ℕ)
    → lookup id volumes ≡ some a
    → among a (addresses volumes) ≡ true
unfolding lookup
lookup-among id a [] e = cc e
lookup-among id a ((k, b) ∷ volumes) e = ground (arith, e, ==_iff b a, lookup-among id a volumes)

pulled-id : (now : ℕ) (fetched : Fetched) (v : Volume) → (pulled now fetched v).0.id ≡ v.id
unfolding pulled refresh report_trouble answer_demands_before
pulled-id now fetched v = ground arith

-- What is on the loop at the address is wanted there.
insert-kept :
    (id other : Bytes) (a b : ℕ) (wanted volumes : Dict ℕ)
    → lookup id wanted ≡ some a
    → lookup id volumes ≡ some a
    → lookup other volumes ≡ some b
    → lookup id (insert other b wanted) ≡ some a
insert-kept id other a b wanted volumes held here there = elim (Bool-cases (same other id)) [
  | inl is ↦
      let at : lookup other volumes ≡ some a =
        ap (λ k. lookup k volumes) ((same_iff other id).0 is) ∙ here in
      ground (arith, is, lookup-insert other id b wanted, at, there)
  | inr differs ↦ ground (arith, differs, held, lookup-insert other id b wanted)
]

is_at-some : (a : ℕ) (o : Option ℕ) → is_at a o ≡ true → o ≡ some a
is_at-some a none e = cc e
is_at-some a (some b) e = ap some ((==_iff b a).0 e)

on_loop-lookup :
    (id : Bytes) (a : ℕ) (f : Follower) → on_loop id a f ≡ true → lookup id f.volumes ≡ some a
unfolding on_loop
on_loop-lookup id a f e = is_at-some a (lookup id f.volumes) e

lookup-on_loop :
    (id : Bytes) (a : ℕ) (f : Follower) → lookup id f.volumes ≡ some a → on_loop id a f ≡ true
unfolding on_loop
lookup-on_loop id a f e = ap (is_at a) e ∙ (==_iff a a).1 refl

want_again-kept :
    (id other : Bytes) (a b : ℕ) (f : Follower)
    → lookup id f.wanted ≡ some a
    → lookup id f.volumes ≡ some a
    → lookup id (want_again other b f).0.wanted ≡ some a
unfolding want_again
want_again-kept id other a b f held here =
    if-either (λ (m : Follower × Bool). lookup id m.0.wanted ≡ some a) (on_loop other b f)
      (λ there.
        insert-kept id other a b f.wanted f.volumes held here (on_loop-lookup other b f there))
      (λ gone. held)

want_again-volumes :
    (other : Bytes) (b : ℕ) (f : Follower) → (want_again other b f).0.volumes ≡ f.volumes
unfolding want_again
want_again-volumes other b f =
    if-either (λ (m : Follower × Bool). m.0.volumes ≡ f.volumes) (on_loop other b f) (λ there. refl)
      (λ gone. refl)

want_again-wanted :
    (id : Bytes) (a : ℕ) (f : Follower)
    → lookup id f.volumes ≡ some a
    → lookup id (want_again id a f).0.wanted ≡ some a
unfolding want_again
want_again-wanted id a f here =
    rw (want_again, lookup-on_loop id a f here) (lookup-insert_self id a f.wanted)

round_end-volumes :
    (wanted : Dict ℕ) (id : Bytes) (a : ℕ) (worked : Bool) (p : Passing)
    → (round_end wanted id a worked p).follower.volumes ≡ p.follower.volumes
unfolding round_end
round_end-volumes wanted id a true p = refl
round_end-volumes wanted id a false p =
    if-either (λ (q : Passing). q.follower.volumes ≡ p.follower.volumes)
      (is_some (lookup id wanted)) (λ named. want_again-volumes id a p.follower) (λ other. refl)

round_end-kept :
    (wanted : Dict ℕ) (id other : Bytes) (a b : ℕ) (worked : Bool) (p : Passing)
    → lookup id p.follower.wanted ≡ some a
    → lookup id p.follower.volumes ≡ some a
    → lookup id (round_end wanted other b worked p).follower.wanted ≡ some a
unfolding round_end
round_end-kept wanted id other a b true p held here = held
round_end-kept wanted id other a b false p held here =
    if-either (λ (q : Passing). lookup id q.follower.wanted ≡ some a)
      (is_some (lookup other wanted)) (λ named. want_again-kept id other a b p.follower held here)
      (λ unnamed. held)

round_end-wanted :
    (wanted : Dict ℕ) (id other : Bytes) (a : ℕ) (worked : Bool) (p : Passing)
    → lookup id wanted ≡ some a
    → lookup id p.follower.volumes ≡ some a
    → other ≡ id
    → (worked ≡ true) ⊎ (lookup id (round_end wanted other a worked p).follower.wanted ≡ some a)
unfolding round_end
round_end-wanted wanted id other a true p named here at = inl refl
round_end-wanted wanted id other a false p named here at = inr (
    subst (λ k. lookup id (round_end wanted k a false p).follower.wanted ≡ some a) (sym at)
      (rw (round_end, named) (want_again-wanted id a p.follower here)))

module _ (fetch : ℕ → Fetched) (now : ℕ) (wanted : Dict ℕ) where
  round-volumes :
      (b : ℕ) (p : Passing) → (round fetch now wanted b p).follower.volumes ≡ p.follower.volumes
  unfolding round pull_one
  round-volumes b p =
      if-either (λ (q : Passing). q.follower.volumes ≡ p.follower.volumes)
        (waits_for_credential (p.store b)) (λ waits. refl)
        (λ goes. round_end-volumes wanted (p.store b).id b _ _)

  round-kept :
      (id : Bytes) (a b : ℕ) (p : Passing)
      → lookup id p.follower.wanted ≡ some a
      → lookup id p.follower.volumes ≡ some a
      → lookup id (round fetch now wanted b p).follower.wanted ≡ some a
  unfolding round pull_one
  round-kept id a b p held here =
      if-either (λ (q : Passing). lookup id q.follower.wanted ≡ some a)
        (waits_for_credential (p.store b)) (λ waits. held)
        (λ goes. round_end-kept wanted id (p.store b).id a b _ _ held here)

  round-id : (b c : ℕ) (p : Passing) → ((round fetch now wanted b p).store c).id ≡ (p.store c).id
  round-id b c p =
      ap (λ (v : Volume). v.id) (round_store fetch now wanted b c p)
      ∙ if-either (λ (v : Volume). v.id ≡ (p.store c).id) (b == c)
          (λ here.
            if-either (λ (v : Volume). v.id ≡ (p.store c).id) (waits_for_credential (p.store c))
              (λ waits. refl) (λ goes. pulled-id now (fetch c) (p.store c)))
          (λ other. refl)

  rounds-volumes :
      (snapshot : List ℕ) (p : Passing)
      → (rounds fetch now wanted snapshot p).follower.volumes ≡ p.follower.volumes
  unfolding rounds
  rounds-volumes [] p = refl
  rounds-volumes (b ∷ snapshot) p = rounds-volumes snapshot _ ∙ round-volumes b p

  rounds-id :
      (snapshot : List ℕ) (c : ℕ) (p : Passing)
      → ((rounds fetch now wanted snapshot p).store c).id ≡ (p.store c).id
  unfolding rounds
  rounds-id [] c p = refl
  rounds-id (b ∷ snapshot) c p = rounds-id snapshot c _ ∙ round-id b c p

  rounds-kept :
      (id : Bytes) (a : ℕ) (snapshot : List ℕ) (p : Passing)
      → lookup id p.follower.wanted ≡ some a
      → lookup id p.follower.volumes ≡ some a
      → lookup id (rounds fetch now wanted snapshot p).follower.wanted ≡ some a
  unfolding rounds
  rounds-kept id a [] p held here = held
  rounds-kept id a (b ∷ snapshot) p held here =
      rounds-kept id a snapshot _ (round-kept id a b p held here)
        (ap (lookup id) (round-volumes b p) ∙ here)

  -- What a pass finds of a volume: it waits for its credential, or its fetch works.
  abbrev pub IsServed : ℕ → Volume → Type 0
  IsServed a v = (waits_for_credential v ≡ true) ⊎ ((pulled now (fetch a) v).1 ≡ true)

  round-serves :
      (id : Bytes) (a : ℕ) (p : Passing)
      → lookup id wanted ≡ some a
      → lookup id p.follower.volumes ≡ some a
      → (p.store a).id ≡ id
      → IsServed a (p.store a) ⊎ (lookup id (round fetch now wanted a p).follower.wanted ≡ some a)
  unfolding round pull_one
  round-serves id a p named here at =
      if-either (λ (q : Passing). IsServed a (p.store a) ⊎ (lookup id q.follower.wanted ≡ some a))
        (waits_for_credential (p.store a)) (λ waits. inl (inl waits))
        (λ goes.
          elim (round_end-wanted wanted id (p.store a).id a (pulled now (fetch a) (p.store a)).1
            (record p { store = store_at a (pulled now (fetch a) (p.store a)).0 p.store }) named
            here at) [ inl worked ↦ inl (inr worked) | inr again ↦ inr again ])

  rounds-serve :
      (id : Bytes) (a : ℕ) (snapshot : List ℕ) (p : Passing)
      → lookup id wanted ≡ some a
      → lookup id p.follower.volumes ≡ some a
      → (p.store a).id ≡ id
      → among a snapshot ≡ true
      → IsServed a (p.store a)
        ⊎ (lookup id (rounds fetch now wanted snapshot p).follower.wanted ≡ some a)
  unfolding rounds
  rounds-serve id a [] p named here at listed = cc listed
  rounds-serve id a (b ∷ snapshot) p named here at listed = elim (Bool-cases (b == a)) [
    | inl now_it ↦
        let is : b ≡ a = (==_iff b a).0 now_it in
        elim (round-serves id a p named here at) [
          | inl served ↦ inl served
          | inr again ↦ inr (
              rounds-kept id a snapshot (round fetch now wanted b p)
                (subst (λ c. lookup id (round fetch now wanted c p).follower.wanted ≡ some a)
                  (sym is) again)
                (ap (lookup id) (round-volumes b p) ∙ here))
        ]
    | inr other ↦
        let kept : (round fetch now wanted b p).store a ≡ p.store a =
          round_store fetch now wanted b a p ∙ rw other refl in
        subst
          (λ v.
            IsServed a v
            ⊎ (lookup id
                  (rounds fetch now wanted snapshot (round fetch now wanted b p)).follower.wanted
                ≡ some a))
          kept
          (rounds-serve id a snapshot (round fetch now wanted b p) named
            (ap (lookup id) (round-volumes b p) ∙ here) (round-id b a p ∙ at)
            (ground (arith, listed, other)))
  ]

-- The volume is on the loop under its id, and wanted.
abbrev pub IsWanted : Bytes → ℕ → Loop → Type 0
IsWanted id a l =
    (lookup id l.follower.volumes ≡ some a)
    × ((l.store a).id ≡ id)
    × (lookup id l.follower.wanted ≡ some a)

-- A pass over a loop as it stands that serves the volume.
abbrev pub IsServing : ℕ → ℕ → (ℕ → Fetched) → ℕ → ℕ → Loop → Loop → Type 0
IsServing a demand_min fetch now drawn l m =
    (before : Loop) × (before.store ≡ l.store)
    × (before.follower.volumes ≡ l.follower.volumes)
    × (before.follower.wanted ≡ l.follower.wanted)
    × (m ≡ passes demand_min fetch now drawn before)
    × IsServed fetch now l.follower.wanted a (l.store a)

settle_cases :
    (demand_min drawn : ℕ) (failed : Bool) (l : Loop)
    → let m = settle demand_min drawn failed l in
      (m.store ≡ l.store)
      × (m.follower.volumes ≡ l.follower.volumes)
      × (m.follower.wanted ≡ l.follower.wanted)
unfolding settle
settle_cases demand_min drawn true l = (refl, refl, refl)
settle_cases demand_min drawn false l = (refl, refl, refl)

-- A pass serves a wanted volume or leaves it wanted.
passes-IsWanted :
    (id : Bytes) (a demand_min : ℕ) (fetch : ℕ → Fetched) (now drawn : ℕ) (l : Loop)
    → IsWanted id a l
    → IsServed fetch now l.follower.wanted a (l.store a)
      ⊎ IsWanted id a (passes demand_min fetch now drawn l)
unfolding passes arm tick answered
passes-IsWanted id a demand_min fetch now drawn l (here, at, held) =
    let f' = (answered now l.follower).0 in
    let p0 : Passing = record { store = l.store; follower = f'; failed = false } in
    let snapshot = addresses l.follower.volumes in
    let p = rounds fetch now l.follower.wanted snapshot p0 in
    let (stored, volumes, wanted) =
      settle_cases demand_min drawn p.failed
        (record l { store = p.store; follower = p.follower }) in
    elim (rounds-serve fetch now l.follower.wanted id a snapshot p0 held here at
      (lookup-among id a l.follower.volumes here)) [
        | inl served ↦ inl served
        | inr again ↦ inr (
          ap (lookup id) (volumes ∙ rounds-volumes fetch now l.follower.wanted snapshot p0) ∙ here,
          ap (λ (s : Store). (s a).id) stored
              ∙ rounds-id fetch now l.follower.wanted snapshot a p0
              ∙ at,
          ap (lookup id) wanted ∙ again,
        )
      ]

-- The calls that end the wish of a volume: it leaves the loop, or another volume takes its place under its id.
abbrev pub EndsCall : Bytes → Call → Type 0
EndsCall id (adds other b) = other ≡ id
EndsCall id (removes other) = other ≡ id
EndsCall id (demands at b) = ⊥
EndsCall id (returns_credential b) = ⊥

demand-IsWanted :
    (id : Bytes) (a at b : ℕ) (l : Loop) → IsWanted id a l → IsWanted id a (call (demands at b) l)
unfolding call demand store_at
demand-IsWanted id a at b l (here, named, held) =
    let v = l.store b in
    if-either
      (λ (m : Store × Follower).
        (lookup id m.1.volumes ≡ some a) × ((m.0 a).id ≡ id) × (lookup id m.1.wanted ≡ some a))
      (waits_for_credential v || not (on_loop v.id b l.follower)) (λ out. (here, named, held))
      (λ joined. (
        here,
        if-either (λ (w : Volume). w.id ≡ id) (b == a)
            (λ is. ap (λ c. (l.store c).id) ((==_iff b a).0 is) ∙ named) (λ other. named),
        insert-kept id v.id a b l.follower.wanted l.follower.volumes held here
            (on_loop-lookup v.id b l.follower (ground (arith, joined))),
      ))

credential-IsWanted :
    (id : Bytes) (a b : ℕ) (l : Loop)
    → IsWanted id a l
    → IsWanted id a (call (returns_credential b) l)
unfolding call credential_arrived
credential-IsWanted id a b l (here, named, held) =
    let v = l.store b in
    if-either
      (λ (f : Follower).
        (lookup id f.volumes ≡ some a) × ((l.store a).id ≡ id) × (lookup id f.wanted ≡ some a))
      (not (on_loop v.id b l.follower)) (λ out. (here, named, held))
      (λ joined. (
        here,
        named,
        insert-kept id v.id a b l.follower.wanted l.follower.volumes held here
            (on_loop-lookup v.id b l.follower (ground (arith, joined))),
      ))

call-IsWanted :
    (id : Bytes) (a : ℕ) (c : Call) (l : Loop)
    → IsWanted id a l
    → EndsCall id c ⊎ IsWanted id a (call c l)
unfolding call add remove_volume
call-IsWanted id a (adds other b) l (here, named, held) = elim (Bool-cases (same other id)) [
  | inl is ↦ inl ((same_iff other id).0 is)
  | inr differs ↦
      inr (ground (arith, differs, here, lookup-insert other id b l.follower.volumes), named, held)
]
call-IsWanted id a (removes other) l (here, named, held) = elim (Bool-cases (same other id)) [
  | inl is ↦ inl ((same_iff other id).0 is)
  | inr differs ↦ inr (
    ground (arith, differs, here, lookup-remove other id l.follower.volumes),
    named,
    ground (arith, differs, held, lookup-remove other id l.follower.wanted),
  )
]
call-IsWanted id a (demands at b) l h = inr (demand-IsWanted id a at b l h)
call-IsWanted id a (returns_credential b) l h = inr (credential-IsWanted id a b l h)

module _ (id : Bytes) (a demand_min : ℕ) where
  abbrev Kept : (ℕ → Fetched) → ℕ → ℕ → Loop → Loop → Type 0
  Kept fetch now drawn l m = IsServing a demand_min fetch now drawn l m ⊎ IsWanted id a m

  -- Of a pass over the loop, or over one that has its volumes.
  passes-Kept :
      (fetch : ℕ → Fetched) (now drawn : ℕ) (l : Loop)
      → IsWanted id a l
      → Kept fetch now drawn l (passes demand_min fetch now drawn l)
  passes-Kept fetch now drawn l h = elim (passes-IsWanted id a demand_min fetch now drawn l h) [
    | inl served ↦ inl (l, refl, refl, refl, refl, served)
    | inr wanted ↦ inr wanted
  ]

  on_idle-Kept :
      (fetch : ℕ → Fetched) (now drawn : ℕ) (l : Loop)
      → IsWanted id a l
      → Kept fetch now drawn l (on_idle demand_min fetch now drawn l)
  unfolding on_idle
  on_idle-Kept fetch now drawn l h =
      if-either (Kept fetch now drawn l) (ltb_ℤ (pos 0) (demand_wait demand_min now l.follower))
        (λ early. inr h) (λ due. passes-Kept fetch now drawn l h)

  on_demand-Kept :
      (fetch : ℕ → Fetched) (now drawn : ℕ) (l : Loop)
      → IsWanted id a l
      → Kept fetch now drawn l (on_demand demand_min fetch now drawn l)
  unfolding on_demand
  on_demand-Kept fetch now drawn l h =
      if-either (Kept fetch now drawn l) l.waiting (λ waits. inr h)
        (λ idle. on_idle-Kept fetch now drawn l h)

  select_case-Kept :
      (fetch : ℕ → Fetched) (now drawn : ℕ) (c : Case) (l : Loop)
      → IsWanted id a l
      → Kept fetch now drawn l (select_case demand_min fetch now drawn c l)
  unfolding select_case arm
  select_case-Kept fetch now drawn wakes l h = inr h
  select_case-Kept fetch now drawn is_demanded l h =
      on_demand-Kept fetch now drawn
        (record l { follower = record l.follower { demanded = false } }) h
  select_case-Kept fetch now drawn is_delayed l h =
      passes-Kept fetch now drawn (record l { delay_timer = none; waiting = false }) h
  select_case-Kept fetch now drawn has_arrived l h =
      passes-Kept fetch now drawn (record l { follower = record l.follower { arrived = false } }) h
  select_case-Kept fetch now drawn is_due l h =
      passes-Kept fetch now drawn (record l { pull_timer = none }) h
  select_case-Kept fetch now drawn is_retried l h =
      passes-Kept fetch now drawn (record l { retry_timer = none }) h

  -- The step ends the wish: such a call, or a pass that serves the volume.
  abbrev pub Ends : {l m : Loop} → Step demand_min l m → Type 0
  Ends (called c l) = EndsCall id c
  Ends {m = m} (selected fetch now drawn c l) = IsServing a demand_min fetch now drawn l m

  abbrev pub Ended : {l m : Loop} → Run demand_min l m → Type 0
  Ended (stays l) = ⊥
  Ended (steps s r) = Ends s ⊎ Ended r

  Step-Kept : {l m : Loop} (s : Step demand_min l m) → IsWanted id a l → Ends s ⊎ IsWanted id a m
  Step-Kept (called c l) h = call-IsWanted id a c l h
  Step-Kept (selected fetch now drawn c l) h = select_case-Kept fetch now drawn c l h

  -- A full slot, the delay of a demand or the timer of a retry will run a pass.
  abbrev pub IsArmed : Loop → Type 0
  IsArmed l =
      (l.follower.demanded ≡ true)
      ⊎ (l.follower.arrived ≡ true)
      ⊎ (is_some l.delay_timer ≡ true)
      ⊎ (is_some l.retry_timer ≡ true)

  driven-IsArmed : (l : Loop) → IsWanted id a l → IsDriven l → IsArmed l
  unfolding lookup
  driven-IsArmed l (here, named, held) (inl none_wanted) =
      let missing : none ≡ some a = ap (lookup id) (sym none_wanted) ∙ held in cc missing
  driven-IsArmed l h (inr armed) = armed

  -- No demand is dropped: from a loop on which a volume is wanted, that is driven and whose delay is set while it
  -- waits, whatever calls and cases of the `select` follow in whatever order, either some step ended the wish, or the
  -- volume is wanted still and a full slot or a timer will run a pass. A step ends it only if the volume leaves the
  -- loop or is replaced under its id, or if it runs a pass whose fetch of the volume works, or in which the volume
  -- waits for its credential.
  pub Run-IsKept :
      {l m : Loop} (run : Run demand_min l m)
      → IsWanted id a l
      → IsDriven l
      → HasDelay l
      → Ended run ⊎ (IsWanted id a m × IsArmed m)
  Run-IsKept (stays l) h d w = inr (h, driven-IsArmed l h d)
  Run-IsKept (steps s r) h d w =
      let (d', w') = Step-IsDriven s d w in
      elim (Step-Kept s h) [
        | inl ended ↦ inl (inl ended)
        | inr wanted ↦ elim (Run-IsKept r wanted d' w') [
          | inl later ↦ inl (inr later)
          | inr kept ↦ inr kept
        ]
      ]
