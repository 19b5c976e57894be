-- ===== src/Follow.antt =====
-- follow.go and demand.go: the fetch loop of one repository, which the volumes of its URL share, and
-- the demands that wake it. `Loop` is `run`, `Watch` reads the demands of the
-- PersistentVolumes, `Driven` has the slots and timers of what is wanted, `Kept` that it stays wanted, `Retry` the waits,
-- `Interval` the timer, `Pass` what one pass does, `Seen` the demands that are kept.
--
-- A volume is known by its address in the node's store. Each operation is one critical section, and
-- one case of the `select` of `run` is one step: what other goroutines do comes between two steps.
-- The repository answers `Fetched` for a volume. `rand.N` is the argument `drawn`. Times and waits are
-- in nanoseconds.
pub mod Loop
pub mod Watch
pub mod Driven
pub mod Kept
pub mod Retry
pub mod Seen
pub mod Interval
pub mod Pass
use git_csi_driver.Prelude.{
  ℕ, ◌+◌, ◌-◌, ◌*◌, ◌/◌, ◌%◌, Bool, true, false, not, ◌&&◌, ◌||◌, Option, none, some, List, [], ◌∷◌,
  map, ℤ, pos, sub_ℕ, leb, ltb, ◌==◌, ltb_ℤ, if◌then◌else◌, is_some, pos_part, neg_part,
}
use git_csi_driver.Prelude.Text.{Bytes, same}
use git_csi_driver.Prelude.Dict.{Dict, lookup, insert, remove}
use git_csi_driver.Attributes.{timer}
use git_csi_driver.Volume.{
  Volume, is_zero, report_demanded, report_pulled, report_commit, report_trouble,
  answer_demands_before,
}
use git_csi_driver.Volume.Credential.{waits_for_credential}

-- The node's volumes, by address.
abbrev pub Store : Type 0
Store = ℕ → Volume

unfoldable pub store_at : ℕ → Volume → Store → Store
store_at a v store b = if a == b then v else store b

pub record Follower : Type 0 where
  pub volumes : Dict ℕ
  pub wanted : Dict ℕ
  pub last_pull : ℕ
  pub backoff : ℕ
  -- The one slot of the channels `demanded` and `arrived`.
  pub demanded : Bool
  pub arrived : Bool

-- Five minutes.
abbrev pub max_demand_retry : ℕ
max_demand_retry = 300000000000

unfoldable pub add : Bytes → ℕ → Follower → Follower
add id a f = record f { volumes = insert id a f.volumes }

unfoldable pub remove_volume : Bytes → Follower → Follower
remove_volume id f = record f { volumes = remove id f.volumes; wanted = remove id f.wanted }

abbrev pub is_at : ℕ → Option ℕ → Bool
is_at a none = false
is_at a (some b) = b == a

-- `f.volumes[held.id] == held`
unfoldable pub on_loop : Bytes → ℕ → Follower → Bool
on_loop id a f = is_at a (lookup id f.volumes)

-- One round of the loop of `interval`.
unfoldable pub shorter : Option ℤ → ℤ → ℤ
shorter none shortest = shortest
shorter (some every) shortest = if is_zero shortest || ltb_ℤ every shortest then every else shortest

unfoldable pub shortest_of : List (Option ℤ) → ℤ → ℤ
shortest_of [] shortest = shortest
shortest_of (t ∷ timers) shortest = shortest_of timers (shorter t shortest)

-- The pull timers of the volumes, in the order of the walk.
abbrev pub timers_of : Store → Dict ℕ → List (Option ℤ)
timers_of store [] = []
timers_of store ((id, a) ∷ volumes) =
    timer (store a).attributes.pull.mode (store a).attributes.pull.every ∷ timers_of store volumes

unfoldable pub interval : Store → Follower → Option ℤ
unfolding shortest_of
interval store f =
    let shortest = shortest_of (timers_of store f.volumes) (pos 0) in
    if is_zero shortest then none else some shortest

-- The demand of a volume: its loop wants it, and the slot is filled.
unfoldable pub demand : ℕ → ℕ → Store → Follower → Store × Follower
demand at a store f =
    let held = store a in
    if waits_for_credential held || not (on_loop held.id a f) then (store, f) else (
      store_at a (report_demanded at held) store,
      record f { wanted = insert held.id a f.wanted; demanded = true },
    )

-- The follower's `credentialArrived`.
unfoldable pub credential_arrived : ℕ → Store → Follower → Follower
credential_arrived a store f =
    let held = store a in
    if not (on_loop held.id a f)
    then f
    else record f { wanted = insert held.id a f.wanted; arrived = true }

-- What is left of the least interval between pulls.
unfoldable pub demand_wait : ℕ → ℕ → Follower → ℤ
demand_wait demand_min now f =
    if f.last_pull == 0 then pos 0 else sub_ℕ (demand_min + f.last_pull) now

-- The wanted volumes are taken.
unfoldable pub answered : ℕ → Follower → Follower × Dict ℕ
answered at f = (record f { wanted = []; last_pull = at }, f.wanted)

unfoldable pub want_again : Bytes → ℕ → Follower → Follower × Bool
want_again id a f =
    if on_loop id a f then (record f { wanted = insert id a f.wanted }, true) else (f, false)

-- What the repository answers for one volume: the credential's files, the fetch or the ref fail, or
-- the ref is at a commit, which is placed in the tree or not.
pub data Fetched : Type 0 where
  unusable unfetched unresolved : Bytes → Fetched
  resolved : Bytes → Option Bytes → Fetched

-- A failure, with the volume it leaves.
abbrev pub fail : Bytes → Volume → Volume × Bool
fail message held = ((report_trouble message held).0, false)

-- Whether the tree holds what the remote holds.
unfoldable pub refresh : Fetched → Volume → Volume × Bool
refresh (unusable message) held = fail message held
refresh (unfetched message) held = fail message held
refresh (unresolved message) held = fail message held
refresh (resolved commit none) held = (report_commit commit held, true)
refresh (resolved commit (some unplaced)) held =
    if same held.commit commit then (report_commit commit held, true) else fail unplaced held

-- One volume of a pass that it is not passed over in: the volume, and whether the fetch worked.
unfoldable pub pulled : ℕ → Fetched → Volume → Volume × Bool
pulled now fetched held =
    let (v, worked) = refresh fetched (report_pulled now held) in
    (if worked then answer_demands_before now v else v, worked)

-- A pass's state: the store, the loop, and whether a demanded fetch failed.
pub record Passing : Type 0 where
  pub store : Store
  pub follower : Follower
  pub failed : Bool

-- The end of a round: a demanded volume whose fetch failed is wanted again.
unfoldable pub round_end : Dict ℕ → Bytes → ℕ → Bool → Passing → Passing
round_end wanted id a true p = p
round_end wanted id a false p =
    if is_some (lookup id wanted)
    then record p {
      follower = (want_again id a p.follower).0;
      failed = (want_again id a p.follower).1 || p.failed;
    }
    else p

module _ (fetch : ℕ → Fetched) where
  -- The rest of a round, for a volume that is not passed over.
  unfoldable pub pull_one : ℕ → Dict ℕ → ℕ → Passing → Passing
  unfolding round_end
  pull_one now wanted a p =
      let (v, worked) = pulled now (fetch a) (p.store a) in
      round_end wanted (p.store a).id a worked (record p { store = store_at a v p.store })

  -- One round of the loop of `tick`.
  unfoldable pub round : ℕ → Dict ℕ → ℕ → Passing → Passing
  unfolding pull_one
  round now wanted a p = if waits_for_credential (p.store a) then p else pull_one now wanted a p

  unfoldable pub rounds : ℕ → Dict ℕ → List ℕ → Passing → Passing
  unfolding round
  rounds now wanted [] p = p
  rounds now wanted (a ∷ snapshot) p = rounds now wanted snapshot (round now wanted a p)

  unfoldable pub tick : ℕ → Store → Follower → Passing
  unfolding rounds answered
  tick now store f =
      let (f', wanted) = answered now f in
      rounds now wanted (map (λ entry. entry.1) f.volumes)
        (record { store = store; follower = f'; failed = false })

-- `jittered`: `rand.N(n)` draws less than `n`, the rest of `drawn`.
unfoldable pub jittered : ℕ → ℕ → ℕ → ℕ
jittered backoff floor drawn =
    if ltb backoff 2
    then backoff
    else let half = backoff / 2 in
      let lowest = if ltb floor half then half else floor in
      if leb backoff lowest then backoff else lowest + drawn % (backoff - lowest + 1)

-- `min(max(2*backoff, demandMin), maxDemandRetry)`
unfoldable pub next_backoff : ℕ → ℕ → ℕ
next_backoff demand_min backoff =
    let doubled = if ltb (2 * backoff) demand_min then demand_min else 2 * backoff in
    if ltb max_demand_retry doubled then max_demand_retry else doubled

-- The backoff, and the wait before the next fetch.
unfoldable pub next_retry : ℕ → ℕ → ℕ → ℕ × ℕ
next_retry demand_min drawn backoff =
    let next = next_backoff demand_min backoff in (next, jittered next demand_min drawn)
