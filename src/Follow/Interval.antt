-- ===== src/Follow/Interval.antt =====
-- The timer of a loop.
use git_csi_driver.Prelude.{
  ℕ, zero, suc, ◌≡◌, refl, ap, ◌∙◌, ◌≤◌, ◌<◌, ◌⊎◌, inl, inr, Option, none, some, List, [], ◌∷◌, All,
  arith, ℤ, pos, negsuc, pos_part, ◌≤ℤ◌,
}
use mathlib.Core.List.{Memᴰ}
use git_csi_driver.Follow.{Store, Follower, shorter, shortest_of, timers_of, interval}

-- No timer, or a timer longer than nothing.
abbrev pub IsPositive : Option ℤ → Type 0
IsPositive none = Unit
IsPositive (some every) = 0 < pos_part every

-- The interval is not above the timer.
pub data IsWithin (d : ℤ) : Option ℤ → Type 0 where
  unbound : IsWithin d none
  bound : {every : ℤ} → d ≤ℤ every → IsWithin d (some every)

-- What the walk has found: no timer yet, or one of the timers, which no timer is below.
abbrev pub IsShortest : ℤ → List (Option ℤ) → Type 0
IsShortest d timers =
    ((d ≡ pos 0) × All (λ t. t ≡ none) timers)
    ⊎ ((n : ℕ) × (d ≡ pos n) × (0 < n) × Memᴰ (some (pos n)) timers × All (IsWithin (pos n)) timers)

shorter_cases :
    (k m : ℕ)
    → 0 < m
    → ((shorter (some (pos k)) (pos m) ≡ pos k) × (k < m))
      ⊎ ((shorter (some (pos k)) (pos m) ≡ pos m) × (m ≤ k))
unfolding shorter
shorter_cases k m h = ground arith

shorter_first : (k : ℕ) → shorter (some (pos k)) (pos 0) ≡ pos k
unfolding shorter
shorter_first k = refl

shorter-none : (d : ℤ) → shorter none d ≡ d
unfolding shorter
shorter-none d = refl

absurd_of {ℓ} : {B : Type ℓ} → suc zero ≡ zero → B
absurd_of h = cc

-- The walk from a timer that is found: what it ends with is that timer or a shorter one.
from_found :
    (timers : List (Option ℤ)) (m : ℕ)
    → All IsPositive timers
    → 0 < m
    → (n : ℕ) × (shortest_of timers (pos m) ≡ pos n)
      × (0 < n)
      × (n ≤ m)
      × ((n ≡ m) ⊎ Memᴰ (some (pos n)) timers)
      × All (IsWithin (pos n)) timers
unfolding shortest_of
from_found [] m ps h = (m, refl, h, omega arith, inl refl, tt)
from_found (none ∷ timers) m (p, ps) h =
    let (n, e, q, b, w, a) = from_found timers m ps h in
    (
      n,
      ap (shortest_of timers) (shorter-none (pos m)) ∙ e,
      q,
      b,
      elim w [ inl i ↦ inl i | inr j ↦ inr (Memᴰ.tail j) ],
      (unbound, a),
    )
from_found (some (negsuc k) ∷ timers) m (p, ps) h = absurd_of (omega (arith, p))
from_found (some (pos k) ∷ timers) m (q, ps) h = elim (shorter_cases k m h) [
  | inl (s, below) ↦
      let (n, e, r, b, w, a) = from_found timers k ps q in
      (
        n,
        ap (shortest_of timers) s ∙ e,
        r,
        omega (arith, b, below),
        elim w [ inl i ↦ inr (Memᴰ.head (ap (λ x. some (pos x)) i)) | inr j ↦ inr (Memᴰ.tail j) ],
        (bound (omega (arith, b)), a),
      )
  | inr (s, above) ↦
      let (n, e, r, b, w, a) = from_found timers m ps h in
      (
        n,
        ap (shortest_of timers) s ∙ e,
        r,
        b,
        elim w [ inl i ↦ inl i | inr j ↦ inr (Memᴰ.tail j) ],
        (bound (omega (arith, b, above)), a),
      )
]

-- The walk from no timer.
shortest_of_lem :
    (timers : List (Option ℤ))
    → All IsPositive timers
    → IsShortest (shortest_of timers (pos 0)) timers
unfolding shortest_of
shortest_of_lem [] ps = inl (refl, tt)
shortest_of_lem (none ∷ timers) (p, ps) = elim (shortest_of_lem timers ps) [
  | inl (z, a) ↦ inl (ap (shortest_of timers) (shorter-none (pos 0)) ∙ z, (refl, a))
  | inr (n, e, q, i, a) ↦
      inr (n, ap (shortest_of timers) (shorter-none (pos 0)) ∙ e, q, Memᴰ.tail i, (unbound, a))
]
shortest_of_lem (some (negsuc k) ∷ timers) (p, ps) = absurd_of (omega (arith, p))
shortest_of_lem (some (pos k) ∷ timers) (q, ps) =
    let (n, e, r, b, w, a) = from_found timers k ps q in
    inr (
      n,
      ap (shortest_of timers) (shorter_first k) ∙ e,
      r,
      elim w [ inl i ↦ Memᴰ.head (ap (λ x. some (pos x)) i) | inr j ↦ Memᴰ.tail j ],
      (bound (omega (arith, b)), a),
    )

interval-some :
    (store : Store) (f : Follower) (n : ℕ)
    → 0 < n
    → shortest_of (timers_of store f.volumes) (pos 0) ≡ pos n
    → interval store f ≡ some (pos n)
unfolding interval
interval-some store f n h e = rw e (ground arith)

-- Where every pull timer is longer than nothing, the loop's interval is one of the timers of its
-- volumes and no timer of them is shorter, and there is no interval exactly where no volume has one.
pub interval_lem :
    (store : Store) (f : Follower)
    → All IsPositive (timers_of store f.volumes)
    → let timers = timers_of store f.volumes in
      ((interval store f ≡ none) × All (λ t. t ≡ none) timers)
      ⊎ ((n : ℕ) × (interval store f ≡ some (pos n))
          × (0 < n)
          × Memᴰ (some (pos n)) timers
          × All (IsWithin (pos n)) timers)
unfolding interval
interval_lem store f ps = elim (shortest_of_lem (timers_of store f.volumes) ps) [
  | inl (z, a) ↦ inl (rw z refl, a)
  | inr (n, e, q, i, a) ↦ inr (n, interval-some store f n q e, q, i, a)
]
