-- ===== src/Watch/Rested.antt =====
-- watch.go: the timer that a watch sets runs out when the tree has rested, and is not late.
use git_csi_driver.Prelude.{
  ℕ, ◌+◌, ◌≤◌, ◌≡◌, refl, sym, ap, ◌∙◌, ◌⊎◌, inl, inr, Bool, true, false, Option, none, some, List,
  [], ◌∷◌, arith, if◌then◌else◌, if-either, ℤ, pos, negsuc, pos_part, sub_ℕ, leb_ℤ,
}
use mathlib.Core.Option.{some-injective}
use mathlib.Core.Path.{subst}
use git_csi_driver.Policy.{Policy}
use git_csi_driver.Arming.{class_changes}
use git_csi_driver.Watch.{
  Watcher, rest, quiet_for, nudge, class_changed, reset, rest_left, watch, Case, on_changes,
  on_classed, on_quiesce, on_sweep, on_arrived, ran_out, select_case, give_rules,
}

-- What happens to a watcher at a time.
pub data Step (now : ℕ) : Watcher → Watcher → Type 0 where
  writes : (w : Watcher) → Step now w (nudge now w)
  arms : (rules : Option Policy) (w : Watcher) → Step now w (give_rules rules w)
  returns_credential : (w : Watcher) → Step now w (record w { arrived = true })
  selects : {w w' : Watcher} (c : Case) → select_case now c w ≡ some w' → Step now w w'

-- Steps at times that do not go back, the last of them first.
pub data Run (from : ℕ) (start : Watcher) : ℕ → Watcher → Type 0 where
  begins : Run from start from start
  goes_on :
      {t t' : ℕ} {w w' : Watcher}
      → Run from start t w
      → t ≤ t'
      → Step t' w w'
      → Run from start t' w'

-- At that time the tree has rested for the quiesce of the rules.
abbrev pub IsRest : Policy → ℕ → ℕ → Type 0
IsRest rules written at = (leb_ℤ rules.quiesce (sub_ℕ at written) ≡ true) × (written ≤ at)

-- One of the scans came when the tree had rested.
abbrev pub WasScanned : Policy → ℕ → List ℕ → Type 0
WasScanned rules written [] = ⊥
WasScanned rules written (at ∷ scans) = IsRest rules written at ⊎ WasScanned rules written scans

abbrev pub RunsOut : Policy → ℕ → Option ℕ → Type 0
RunsOut rules written none = ⊥
RunsOut rules written (some at) = IsRest rules written at

-- The loop is about to set its timer, or the timer runs out when the tree has rested, or a scan came then.
abbrev pub IsWatched : Policy → Watcher → Type 0
IsWatched rules w =
    (w.changes ≡ true)
    ⊎ (w.classed ≡ true)
    ⊎ RunsOut rules w.written w.timer
    ⊎ WasScanned rules w.written w.scans

abbrev Invariant : ℕ → Watcher → Type 0
Invariant now w = (w.written ≤ now) × ((rules : Policy) → w.rules ≡ some rules → IsWatched rules w)

rest_lem : (rules : Policy) (w : Watcher) → w.rules ≡ some rules → rest w ≡ rules.quiesce
unfolding rest
rest_lem rules w e = rw (rest, e) refl

reset_rests :
    (q : ℤ) (now written : ℕ) → written ≤ now → leb_ℤ q (sub_ℕ (now + pos_part q) written) ≡ true
reset_rests (pos n) now written h = ground arith
reset_rests (negsuc n) now written h = ground arith

later_leb :
    (q : ℤ) (at now written : ℕ)
    → at ≤ now
    → written ≤ at
    → leb_ℤ q (sub_ℕ at written) ≡ true
    → leb_ℤ q (sub_ℕ now written) ≡ true
later_leb (pos n) at now written h past rested = ground arith
later_leb (negsuc n) at now written h past rested = ground arith

reset_left_rests :
    (q : ℤ) (now written : ℕ)
    → written ≤ now
    → leb_ℤ q (sub_ℕ (now + pos_part (rest_left q (sub_ℕ now written))) written) ≡ true
unfolding rest_left
reset_left_rests (pos n) now written h = ground arith
reset_left_rests (negsuc n) now written h = ground arith

later_IsRest :
    (rules : Policy) (at now written : ℕ)
    → at ≤ now
    → IsRest rules written at
    → IsRest rules written now
later_IsRest rules at now written h (rested, past) =
    (later_leb rules.quiesce at now written h past rested, omega arith)

some_if :
    {A : Type 0} (b : Bool) {x y : A} → (if b then some x else none) ≡ some y → (b ≡ true) × (x ≡ y)
some_if true e = (refl, some-injective _ _ e)
some_if false e = cc e

-- A timer that ran out when the tree had rested makes the scan of that time one that came then.
after_timer :
    (rules : Policy) (now written : ℕ) (timer : Option ℕ)
    → ran_out now timer ≡ true
    → RunsOut rules written timer
    → IsRest rules written now
after_timer rules now written none ran h = absurd h
after_timer rules now written (some at) ran h =
    later_IsRest rules at now written (ground (arith, ran)) h

after_quiesce :
    (rules : Policy) (now : ℕ) (w : Watcher)
    → ran_out now w.timer ≡ true
    → IsWatched rules w
    → IsWatched rules (record w { timer = none; scans = now ∷ w.scans })
after_quiesce rules now w ran (inl changed) = inl changed
after_quiesce rules now w ran (inr (inl classed)) = inr (inl classed)
after_quiesce rules now w ran (inr (inr (inl due))) =
    inr (inr (inr (inl (after_timer rules now w.written w.timer ran due))))
after_quiesce rules now w ran (inr (inr (inr scanned))) = inr (inr (inr (inr scanned)))

after_sweep :
    (rules : Policy) (now : ℕ) (w : Watcher)
    → IsWatched rules w
    → IsWatched rules (record w { scans = now ∷ w.scans })
after_sweep rules now w (inl changed) = inl changed
after_sweep rules now w (inr (inl classed)) = inr (inl classed)
after_sweep rules now w (inr (inr (inl due))) = inr (inr (inl due))
after_sweep rules now w (inr (inr (inr scanned))) = inr (inr (inr (inr scanned)))

after_reset :
    (rules : Policy) (now : ℕ) (w : Watcher)
    → w.written ≤ now
    → w.rules ≡ some rules
    → IsRest rules w.written (now + pos_part (rest w))
after_reset rules now w past e = (
  subst (λ q. leb_ℤ rules.quiesce (sub_ℕ (now + pos_part q) w.written) ≡ true)
      (sym (rest_lem rules w e)) (reset_rests rules.quiesce now w.written past),
  omega arith,
)

after_class :
    (rules : Policy) (now : ℕ) (w : Watcher)
    → w.written ≤ now
    → w.rules ≡ some rules
    → IsRest rules w.written (now + pos_part (rest_left (rest w) (sub_ℕ now w.written)))
after_class rules now w past e = (
  subst
      (λ q.
        leb_ℤ rules.quiesce (sub_ℕ (now + pos_part (rest_left q (sub_ℕ now w.written))) w.written)
        ≡ true)
      (sym (rest_lem rules w e)) (reset_left_rests rules.quiesce now w.written past),
  omega arith,
)

select_case-Invariant :
    (t now : ℕ) (c : Case) (w w' : Watcher)
    → t ≤ now
    → Invariant t w
    → select_case now c w ≡ some w'
    → Invariant now w'
unfolding select_case reset quiet_for
select_case-Invariant t now on_changes w w' later (past, h) e =
    let (full, done) = some_if w.changes e in
    subst (Invariant now) done (
      omega arith,
      λ rules r.
          inr (inr (inl (after_reset rules now (record w { changes = false }) (omega arith) r))),
    )
select_case-Invariant t now on_classed w w' later (past, h) e =
    let (full, done) = some_if w.classed e in
    subst (Invariant now) done (
      omega arith,
      λ rules r.
          inr (inr (inl (after_class rules now (record w { classed = false }) (omega arith) r))),
    )
select_case-Invariant t now on_quiesce w w' later (past, h) e =
    let (ran, done) = some_if (ran_out now w.timer) e in
    subst (Invariant now) done (omega arith, λ rules r. after_quiesce rules now w ran (h rules r))
select_case-Invariant t now on_sweep w w' later (past, h) e =
    subst (Invariant now) (some-injective _ _ e)
      (omega arith, λ rules r. after_sweep rules now w (h rules r))
select_case-Invariant t now on_arrived w w' later (past, h) e =
    let (full, done) = some_if w.arrived e in subst (Invariant now) done (omega arith, h)

leb_trans : (a b c : ℤ) → leb_ℤ a b ≡ true → leb_ℤ b c ≡ true → leb_ℤ a c ≡ true
leb_trans a b c h k = ground arith

-- Rules with a quiesce that is no longer are watched alike.
shorter_IsRest :
    (old new : Policy) (written at : ℕ)
    → leb_ℤ new.quiesce old.quiesce ≡ true
    → IsRest old written at
    → IsRest new written at
shorter_IsRest old new written at le (rested, past) =
    (leb_trans new.quiesce old.quiesce (sub_ℕ at written) le rested, past)

shorter_RunsOut :
    (old new : Policy) (written : ℕ) (timer : Option ℕ)
    → leb_ℤ new.quiesce old.quiesce ≡ true
    → RunsOut old written timer
    → RunsOut new written timer
shorter_RunsOut old new written none le h = h
shorter_RunsOut old new written (some at) le h = shorter_IsRest old new written at le h

shorter_WasScanned :
    (old new : Policy) (written : ℕ) (scans : List ℕ)
    → leb_ℤ new.quiesce old.quiesce ≡ true
    → WasScanned old written scans
    → WasScanned new written scans
shorter_WasScanned old new written [] le h = h
shorter_WasScanned old new written (at ∷ scans) le (inl now) =
    inl (shorter_IsRest old new written at le now)
shorter_WasScanned old new written (at ∷ scans) le (inr before) =
    inr (shorter_WasScanned old new written scans le before)

after_rules :
    (old new : Policy) (w : Watcher)
    → leb_ℤ new.quiesce old.quiesce ≡ true
    → IsWatched old w
    → IsWatched new (record w { rules = some new })
after_rules old new w le (inl changed) = inl changed
after_rules old new w le (inr (inl classed)) = inr (inl classed)
after_rules old new w le (inr (inr (inl due))) =
    inr (inr (inl (shorter_RunsOut old new w.written w.timer le due)))
after_rules old new w le (inr (inr (inr scanned))) =
    inr (inr (inr (shorter_WasScanned old new w.written w.scans le scanned)))

-- Rules that the watch is not told of have the quiesce of those before.
untold :
    (new : Policy) (before : Option Policy)
    → class_changes (some new) before ≡ false
    → (old : Policy) × (before ≡ some old) × (leb_ℤ new.quiesce old.quiesce ≡ true)
untold new none e = cc e
untold new (some old) e = (old, refl, ground (arith, e))

give_rules-Invariant :
    (now : ℕ) (rules : Option Policy) (w : Watcher)
    → Invariant now w
    → Invariant now (give_rules rules w)
unfolding give_rules class_changed
give_rules-Invariant now rules w (past, h) =
    if-either (Invariant now) (class_changes rules w.rules)
      (λ told. (past, λ new r. inr (inl refl)))
      (λ quiet. (
        past,
        λ new r.
            let (old, was, le) =
              untold new w.rules (sym (ap (λ p. class_changes p w.rules) r) ∙ quiet) in
            subst (λ p. IsWatched new (record w { rules = p })) (sym r)
              (after_rules old new w le (h old was)),
      ))

Step-Invariant :
    {t now : ℕ} {w w' : Watcher} → t ≤ now → Invariant t w → Step now w w' → Invariant now w'
unfolding nudge
Step-Invariant later h (writes w) = (omega arith, λ rules r. inl refl)
Step-Invariant later (past, h) (arms rules w) = give_rules-Invariant _ rules w (omega arith, h)
Step-Invariant later (past, h) (returns_credential w) = (omega arith, h)
Step-Invariant later h (selects c e) = select_case-Invariant _ _ c _ _ later h e

Run-Invariant :
    {from : ℕ} {start : Watcher} {t : ℕ} {w : Watcher}
    → Invariant from start
    → Run from start t w
    → Invariant t w
Run-Invariant h begins = h
Run-Invariant h (goes_on run later step) = Step-Invariant later (Run-Invariant h run) step

watch-Invariant :
    (now : ℕ) (quiesce : ℤ) (rules : Option Policy) → Invariant now (watch now quiesce rules)
unfolding watch reset
watch-Invariant now quiesce rules = (
  omega arith,
  λ r e. inr (
      inr (
        inl (
          after_reset r now
            (record {
              rules = rules;
              quiesce = quiesce;
              timer = none;
              changes = false;
              classed = false;
              arrived = false;
              written = now;
              scans = now ∷ [];
            })
            (omega arith) e))),
)

-- When the loop last took up a write, and a class: the start of the watch before it did.
abbrev took_write : Case → ℕ → ℕ → ℕ
took_write on_changes now before = now
took_write other now before = before

abbrev took_class : Case → ℕ → ℕ → ℕ
took_class on_classed now before = now
took_class other now before = before

abbrev step_write : {now : ℕ} {w w' : Watcher} → Step now w w' → ℕ → ℕ
step_write (writes w) before = before
step_write (arms rules w) before = before
step_write (returns_credential w) before = before
step_write {now = now} (selects c e) before = took_write c now before

abbrev step_class : {now : ℕ} {w w' : Watcher} → Step now w w' → ℕ → ℕ
step_class (writes w) before = before
step_class (arms rules w) before = before
step_class (returns_credential w) before = before
step_class {now = now} (selects c e) before = took_class c now before

abbrev pub last_write : {from : ℕ} {start : Watcher} {t : ℕ} {w : Watcher} → Run from start t w → ℕ
last_write {from = from} begins = from
last_write (goes_on run later step) = step_write step (last_write run)

abbrev pub last_class : {from : ℕ} {start : Watcher} {t : ℕ} {w : Watcher} → Run from start t w → ℕ
last_class {from = from} begins = from
last_class (goes_on run later step) = step_class step (last_class run)

-- A timer that is set runs out no later than the quiesce after the last write, or after the loop last took one up,
-- or than the loop last took up a class.
abbrev pub RunsOutBy : Policy → (written taken classed : ℕ) → Option ℕ → Type 0
RunsOutBy rules written taken classed none = Unit
RunsOutBy rules written taken classed (some at) =
    (at ≤ written + pos_part rules.quiesce) ⊎ (at ≤ taken + pos_part rules.quiesce) ⊎ (at ≤ classed)

-- Or the loop is about to set its timer for a new class.
abbrev pub IsPrompt : Policy → (taken classed : ℕ) → Watcher → Type 0
IsPrompt rules taken classed w =
    (w.classed ≡ true) ⊎ RunsOutBy rules w.written taken classed w.timer

abbrev Promptly : ℕ → (taken classed : ℕ) → Watcher → Type 0
Promptly now taken classed w =
    (w.written ≤ now) × ((rules : Policy) → w.rules ≡ some rules → IsPrompt rules taken classed w)

later_RunsOutBy :
    (rules : Policy) (written now taken classed : ℕ) (timer : Option ℕ)
    → written ≤ now
    → RunsOutBy rules written taken classed timer
    → RunsOutBy rules now taken classed timer
later_RunsOutBy rules written now taken classed none later by = tt
later_RunsOutBy rules written now taken classed (some at) later (inl by) =
    inl (omega (arith, later, by))
later_RunsOutBy rules written now taken classed (some at) later (inr by) = inr by

reset_left_by :
    (q : ℤ) (now written : ℕ)
    → written ≤ now
    → let at = now + pos_part (rest_left q (sub_ℕ now written)) in
      (at ≤ written + pos_part q) ⊎ (at ≤ now)
unfolding rest_left
reset_left_by (pos n) now written h = ground arith
reset_left_by (negsuc n) now written h = ground arith

class_RunsOutBy :
    (rules : Policy) (now taken : ℕ) (w : Watcher)
    → w.written ≤ now
    → w.rules ≡ some rules
    → RunsOutBy rules w.written taken now
        (some (now + pos_part (rest_left (rest w) (sub_ℕ now w.written))))
class_RunsOutBy rules now taken w past e =
    subst
      (λ q.
        RunsOutBy rules w.written taken now
          (some (now + pos_part (rest_left q (sub_ℕ now w.written)))))
      (sym (rest_lem rules w e))
      (elim (reset_left_by rules.quiesce now w.written past) [
        | inl by ↦ inl by
        | inr by ↦ inr (inr by)
      ])

write_RunsOutBy :
    (rules : Policy) (now classed : ℕ) (w : Watcher)
    → w.rules ≡ some rules
    → RunsOutBy rules w.written now classed (some (now + pos_part (rest w)))
write_RunsOutBy rules now classed w e =
    subst (λ q. RunsOutBy rules w.written now classed (some (now + pos_part q)))
      (sym (rest_lem rules w e)) (inr (inl (omega arith)))

select_case-Promptly :
    (t now taken classed : ℕ) (c : Case) (w w' : Watcher)
    → t ≤ now
    → Promptly t taken classed w
    → select_case now c w ≡ some w'
    → Promptly now (took_write c now taken) (took_class c now classed) w'
unfolding select_case reset quiet_for
select_case-Promptly t now taken classed on_changes w w' later (past, h) e =
    let (full, done) = some_if w.changes e in
    subst (Promptly now now classed) done (
      omega arith,
      λ rules r. inr (write_RunsOutBy rules now classed (record w { changes = false }) r),
    )
select_case-Promptly t now taken classed on_classed w w' later (past, h) e =
    let (full, done) = some_if w.classed e in
    subst (Promptly now taken now) done (
      omega arith,
      λ rules r.
          inr (class_RunsOutBy rules now taken (record w { classed = false }) (omega arith) r),
    )
select_case-Promptly t now taken classed on_quiesce w w' later (past, h) e =
    let (ran, done) = some_if (ran_out now w.timer) e in
    subst (Promptly now taken classed) done (omega arith, λ rules r. inr tt)
select_case-Promptly t now taken classed on_sweep w w' later (past, h) e =
    subst (Promptly now taken classed) (some-injective _ _ e) (omega arith, h)
select_case-Promptly t now taken classed on_arrived w w' later (past, h) e =
    let (full, done) = some_if w.arrived e in
    subst (Promptly now taken classed) done (omega arith, h)

same_parts : (a b : ℤ) → leb_ℤ a b ≡ true → leb_ℤ b a ≡ true → pos_part a ≡ pos_part b
same_parts (pos n) (pos m) h k = ground arith
same_parts (pos n) (negsuc m) h k = ground arith
same_parts (negsuc n) (pos m) h k = ground arith
same_parts (negsuc n) (negsuc m) h k = refl

alike_RunsOutBy :
    (old new : Policy) (written taken classed : ℕ) (timer : Option ℕ)
    → pos_part new.quiesce ≡ pos_part old.quiesce
    → RunsOutBy old written taken classed timer
    → RunsOutBy new written taken classed timer
alike_RunsOutBy old new written taken classed none e by = tt
alike_RunsOutBy old new written taken classed (some at) e by = ground (arith, e, by)

untold_quiesce :
    (old new : Policy)
    → class_changes (some new) (some old) ≡ false
    → pos_part new.quiesce ≡ pos_part old.quiesce
untold_quiesce old new e =
    same_parts new.quiesce old.quiesce (ground (arith, e)) (ground (arith, e))

after_untold :
    (old new : Policy) (taken classed : ℕ) (w : Watcher)
    → pos_part new.quiesce ≡ pos_part old.quiesce
    → IsPrompt old taken classed w
    → IsPrompt new taken classed (record w { rules = some new })
after_untold old new taken classed w e (inl told) = inl told
after_untold old new taken classed w e (inr by) =
    inr (alike_RunsOutBy old new w.written taken classed w.timer e by)

give_rules-Promptly :
    (now taken classed : ℕ) (rules : Option Policy) (w : Watcher)
    → Promptly now taken classed w
    → Promptly now taken classed (give_rules rules w)
unfolding give_rules class_changed
give_rules-Promptly now taken classed rules w (past, h) =
    if-either (Promptly now taken classed) (class_changes rules w.rules)
      (λ told. (past, λ new r. inl refl))
      (λ quiet. (
        past,
        λ new r.
            let still = sym (ap (λ p. class_changes p w.rules) r) ∙ quiet in
            let (old, was, le) = untold new w.rules still in
            let same_rest =
              untold_quiesce old new (ap (λ p. class_changes (some new) p) (sym was) ∙ still) in
            subst (λ p. IsPrompt new taken classed (record w { rules = p })) (sym r)
              (after_untold old new taken classed w same_rest (h old was)),
      ))

Step-Promptly :
    {t now : ℕ} {w w' : Watcher} (taken classed : ℕ) (later : t ≤ now) (step : Step now w w')
    → Promptly t taken classed w
    → Promptly now (step_write step taken) (step_class step classed) w'
unfolding nudge
Step-Promptly {now = now} taken classed later (writes w) (past, h) = (
  omega arith,
  λ rules r. elim (h rules r) [
    | inl told ↦ inl told
    | inr by ↦ inr (later_RunsOutBy rules w.written now taken classed w.timer (omega arith) by)
  ],
)
Step-Promptly taken classed later (arms rules w) (past, h) =
    give_rules-Promptly _ taken classed rules w (omega arith, h)
Step-Promptly taken classed later (returns_credential w) (past, h) = (omega arith, h)
Step-Promptly taken classed later (selects c e) h =
    select_case-Promptly _ _ taken classed c _ _ later h e

Run-Promptly :
    {from : ℕ} {start : Watcher} {t : ℕ} {w : Watcher} (run : Run from start t w)
    → Promptly from from from start
    → Promptly t (last_write run) (last_class run) w
Run-Promptly begins h = h
Run-Promptly (goes_on run later step) h =
    Step-Promptly (last_write run) (last_class run) later step (Run-Promptly run h)

watch-Promptly :
    (now : ℕ) (quiesce : ℤ) (rules : Option Policy) → Promptly now now now (watch now quiesce rules)
unfolding watch reset
watch-Promptly now quiesce rules = (
  omega arith,
  λ r e. inr (
      write_RunsOutBy r now now
        (record {
          rules = rules;
          quiesce = quiesce;
          timer = none;
          changes = false;
          classed = false;
          arrived = false;
          written = now;
          scans = now ∷ [];
        })
        e),
)

-- After any writes, classes, credentials and cases of the select, at times that do not go back, an armed volume's
-- tree is watched: the loop is about to set its timer, or its timer runs out when the tree has rested since the last
-- write for the quiesce in force, or a scan came when it had. And a timer that is set is not late, unless the loop is
-- about to take up a new class: it runs out by the quiesce after the last write or after the loop last took one up,
-- or by the time when the loop last took up a class.
pub Run-IsWatched :
    (from t : ℕ) (quiesce : ℤ) (rules : Option Policy) (w : Watcher) (in_force : Policy)
    (run : Run from (watch from quiesce rules) t w)
    → w.rules ≡ some in_force
    → IsWatched in_force w × IsPrompt in_force (last_write run) (last_class run) w
Run-IsWatched from t quiesce rules w in_force run e = (
  (Run-Invariant (watch-Invariant from quiesce rules) run).1 in_force e,
  (Run-Promptly run (watch-Promptly from quiesce rules)).1 in_force e,
)
