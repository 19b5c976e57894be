-- ===== src/Follow/Pass.antt =====
-- follow.go: what one pass of a fetch loop does to each volume.
use git_csi_driver.Prelude.{
  ℕ, ◌≡◌, refl, ap, ◌∙◌, Bool, true, false, ◌||◌, List, [], ◌∷◌, map, arith, ◌==◌, if◌then◌else◌,
  ==_iff, if-either, is_some,
}
use git_csi_driver.Prelude.Text.{Bytes}
use git_csi_driver.Prelude.Dict.{Dict, lookup}
use git_csi_driver.Volume.{Volume}
use git_csi_driver.Volume.Credential.{waits_for_credential}
use git_csi_driver.Follow.{
  Store, store_at, Follower, Fetched, Passing, pulled, round_end, pull_one, round, rounds, answered,
  tick,
}

abbrev pub among : ℕ → List ℕ → Bool
among a [] = false
among a (b ∷ more) = b == a || among a more

-- No two entries of the loop are one volume.
abbrev pub AreDistinct : List ℕ → Type 0
AreDistinct [] = Unit
AreDistinct (a ∷ more) = (among a more ≡ false) × AreDistinct more

abbrev pub addresses : Dict ℕ → List ℕ
addresses volumes = map (λ entry. entry.1) volumes

round_end_store :
    (wanted : Dict ℕ) (id : Bytes) (a : ℕ) (worked : Bool) (p : Passing)
    → (round_end wanted id a worked p).store ≡ p.store
unfolding round_end
round_end_store wanted id a true p = refl
round_end_store wanted id a false p =
    if-either (λ (q : Passing). q.store ≡ p.store) (is_some (lookup id wanted)) (λ named. refl)
      (λ other. refl)

module _ (fetch : ℕ → Fetched) (now : ℕ) where
  -- A volume alone, after a pass.
  abbrev pub passed : ℕ → Volume → Volume
  passed a v = if waits_for_credential v then v else (pulled now (fetch a) v).0

  pub round_store :
      (wanted : Dict ℕ) (a b : ℕ) (p : Passing)
      → (round fetch now wanted a p).store b ≡ (if a == b then passed b (p.store b) else p.store b)
  unfolding round pull_one store_at
  round_store wanted a b p =
      if-either (λ (q : Passing). q.store b ≡ (if a == b then passed b (p.store b) else p.store b))
        (waits_for_credential (p.store a)) (λ waits. ground (arith, ==_iff a b))
        (λ goes.
          let (v, worked) = pulled now (fetch a) (p.store a) in
          let stored =
            round_end_store wanted (p.store a).id a worked
              (record p { store = store_at a v p.store }) in
          ap (λ (s : Store). s b) stored ∙ ground (arith, ==_iff a b))

  rounds_store :
      (wanted : Dict ℕ) (snapshot : List ℕ) (b : ℕ) (p : Passing)
      → AreDistinct snapshot
      → (rounds fetch now wanted snapshot p).store b
        ≡ (if among b snapshot then passed b (p.store b) else p.store b)
  unfolding rounds
  rounds_store wanted [] b p distinct = refl
  rounds_store wanted (a ∷ snapshot) b p (new, distinct) = ground (
    arith,
    rounds_store wanted snapshot b (round fetch now wanted a p) distinct,
    round_store wanted a b p,
    ==_iff a b,
  )

  -- A pass over a loop whose entries are distinct leaves each of its volumes as that volume's own fetch leaves it,
  -- one that waits for its credential as it was, and every other volume of the node as it was, in whatever order
  -- the loop is walked.
  pub tick_lem :
      (store : Store) (f : Follower) (b : ℕ)
      → AreDistinct (addresses f.volumes)
      → (tick fetch now store f).store b
        ≡ (if among b (addresses f.volumes) then passed b (store b) else store b)
  unfolding tick answered
  tick_lem store f b distinct = rounds_store f.wanted (addresses f.volumes) b _ distinct
