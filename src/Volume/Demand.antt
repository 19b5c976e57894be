-- ===== src/Volume/Demand.antt =====
-- The times of a volume's demands: which demand a volume pulls for, whatever fetches and demands
-- came before it.
use git_csi_driver.Prelude.{ℕ, ◌≡◌, ◌≢◌, ◌≤◌, ◌<◌, ◌+◌, ◌⊎◌, true, false, List, [], ◌∷◌, arith}
use git_csi_driver.Volume.{Volume, demand_skew, later_answer, answer_demands_before, take_demand}

-- What moves the times of a volume: a fetch that worked, with its start, and a demand, with its stamp
-- and the node's clock.
pub data Moment : Type 0 where
  fetched : ℕ → Moment
  demanded : ℕ → ℕ → Moment

-- When the moment is, on the node's clock.
abbrev pub clock_of : Moment → ℕ
clock_of (fetched start) = start
clock_of (demanded at now) = now

unfoldable pub moment : Moment → Volume → Volume
moment (fetched start) v = answer_demands_before start v
moment (demanded at now) v = (take_demand at now v).0

-- The run of the moments, in order.
unfoldable pub moments : List Moment → Volume → Volume
unfolding moment
moments [] v = v
moments (m ∷ l) v = moments l (moment m v)

-- No moment is later than the time.
abbrev pub AllBy : ℕ → List Moment → Type 0
AllBy now [] = Unit
AllBy now (m ∷ l) = (clock_of m ≤ now) × AllBy now l

-- The volume answers no demand stamped after the time less the skew.
abbrev pub IsBehind : ℕ → Volume → Type 0
IsBehind now v = (v.answered ≡ 0) ⊎ (v.answered + demand_skew ≤ now)

later_answer-bound :
    (start answered now : ℕ)
    → (answered ≡ 0) ⊎ (answered + demand_skew ≤ now)
    → start ≤ now
    → (later_answer start answered ≡ 0) ⊎ (later_answer start answered + demand_skew ≤ now)
unfolding later_answer
later_answer-bound start answered now b h = ground arith

moment-IsBehind :
    (m : Moment) (v : Volume) (now : ℕ)
    → IsBehind now v
    → clock_of m ≤ now
    → IsBehind now (moment m v)
unfolding moment answer_demands_before take_demand
moment-IsBehind (fetched start) v now b h = later_answer-bound start v.answered now b h
moment-IsBehind (demanded at clock) v now b h =
    ground (arith, later_answer-bound clock v.answered now b h)

moments-IsBehind :
    (l : List Moment) (v : Volume) (now : ℕ)
    → IsBehind now v
    → AllBy now l
    → IsBehind now (moments l v)
unfolding moments
moments-IsBehind [] v now b a = b
moments-IsBehind (m ∷ l) v now b (h, a) =
    moments-IsBehind l (moment m v) now (moment-IsBehind m v now b h) a

-- No demand is missed: after any fetches and demands that are not later than now, a volume takes every
-- demand with a stamp less than a minute before now, or later, unless it is the very demand that it took
-- last, where the stamp is a time and the volume answered nothing before them that is later than now less
-- the minute.
pub take_demand_missing_none :
    (l : List Moment) (v : Volume) (at now : ℕ)
    → IsBehind now v
    → AllBy now l
    → 0 < at
    → now < at + demand_skew
    → at ≢ (moments l v).taken
    → (take_demand at now (moments l v)).1 ≡ true
unfolding take_demand
take_demand_missing_none l v at now b a p h d = let k = moments-IsBehind l v now b a in ground arith

answered-moment : (m : Moment) (v : Volume) → v.answered ≤ (moment m v).answered
unfolding moment answer_demands_before take_demand later_answer
answered-moment (fetched start) v = ground arith
answered-moment (demanded at clock) v = ground arith

-- Whatever comes after it, what a volume answers stays answered.
answered-moments : (l : List Moment) (v : Volume) → v.answered ≤ (moments l v).answered
unfolding moments
answered-moments [] v = omega arith
answered-moments (m ∷ l) v = omega (arith, answered-moment m v, answered-moments l (moment m v))

answered_after :
    (start : ℕ) (v : Volume) → start ≤ (answer_demands_before start v).answered + demand_skew
unfolding answer_demands_before later_answer
answered_after start v = ground arith

-- A fetch that worked answers every demand stamped a minute or more before its start, and for good: no
-- later fetch or demand makes the volume pull for one of them.
pub take_demand_answered :
    (start : ℕ) (l : List Moment) (v : Volume) (at now : ℕ)
    → at + demand_skew ≤ start
    → (take_demand at now (moments l (answer_demands_before start v))).1 ≡ false
unfolding take_demand
take_demand_answered start l v at now h =
    let k = answered-moments l (answer_demands_before start v) in
    let j = answered_after start v in ground arith
