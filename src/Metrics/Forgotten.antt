-- ===== src/Metrics/Forgotten.antt =====
-- metrics.go: the series of a volume that the node forgets.
use git_csi_driver.Prelude.{
  ℕ, ◌≡◌, refl, ap, ◌∙◌, Bool, true, false, not, ◌&&◌, Option, none, List, [], ◌∷◌, arith,
  if◌then◌else◌, All,
}
use git_csi_driver.Prelude.Text.{Bytes, same, is_empty}
use git_csi_driver.Cluster.{ClaimReference}
use git_csi_driver.Volume.{Volume, namespace_of, take_health}
use git_csi_driver.Metrics.{
  Series, Metrics, set_at, record_volume, health, note_health, demanded, push_failed, forget_volume,
  forget_claim, forget,
}

pub data Gauge : Type 0 where
  armed pending unpushed last_push push_failures skipped diverged : Gauge
  abnormal demanded_pulls : Gauge

abbrev pub series_of : Gauge → Metrics → Series
series_of armed m = m.armed
series_of pending m = m.pending
series_of unpushed m = m.unpushed
series_of last_push m = m.last_push
series_of push_failures m = m.push_failures
series_of skipped m = m.skipped
series_of diverged m = m.diverged
series_of abnormal m = m.abnormal
series_of demanded_pulls m = m.demanded_pulls

abbrev is_claim_label : Volume → Bytes → Bytes → Bool
is_claim_label held n k =
    not (is_empty held.claim.name) && (same held.claim.namespace n && same held.claim.name k)

abbrev is_volume_label : Volume → Bytes → Bytes → Bool
is_volume_label held n k =
    not (is_empty (namespace_of held)) && (same (namespace_of held) n && same held.id k)

-- The labels of a volume's own series: those of its claim, or its namespace and id.
abbrev pub is_label : Gauge → Volume → Bytes → Bytes → Bool
is_label abnormal held n k = is_volume_label held n k
is_label demanded_pulls held n k = is_volume_label held n k
is_label other held n k = is_claim_label held n k

-- What the node does with the gauges of one volume, as it is at that time.
pub data Reading : Type 0 where
  recorded noted wanted failed : ℕ → Volume → Reading

abbrev pub read_each : List Reading → Metrics → Metrics
read_each [] m = m
read_each (recorded now v ∷ more) m = read_each more (record_volume v m)
read_each (noted now v ∷ more) m = read_each more (note_health now v m).1
read_each (wanted now v ∷ more) m = read_each more (demanded v m)
read_each (failed now v ∷ more) m = read_each more (push_failed v m)

-- A volume as it is at another time: its id, its claim and its namespace stay.
abbrev pub HasLabels : Volume → Reading → Type 0
HasLabels held (recorded now v) =
    (v.id ≡ held.id) × (v.claim ≡ held.claim) × (namespace_of v ≡ namespace_of held)
HasLabels held (noted now v) =
    (v.id ≡ held.id) × (v.claim ≡ held.claim) × (namespace_of v ≡ namespace_of held)
HasLabels held (wanted now v) =
    (v.id ≡ held.id) × (v.claim ≡ held.claim) × (namespace_of v ≡ namespace_of held)
HasLabels held (failed now v) =
    (v.id ≡ held.id) × (v.claim ≡ held.claim) × (namespace_of v ≡ namespace_of held)

abbrev Keeps : Gauge → Volume → Bytes → Bytes → Metrics → Metrics → Type 0
Keeps g held n k m m' = is_label g held n k ≡ false → series_of g m' n k ≡ series_of g m n k

record_volume-Keeps :
    (g : Gauge) (v : Volume) (n k : Bytes) (m : Metrics) → Keeps g v n k m (record_volume v m)
unfolding record_volume set_at
record_volume-Keeps armed v n k m e = ground arith
record_volume-Keeps pending v n k m e = ground arith
record_volume-Keeps unpushed v n k m e = ground arith
record_volume-Keeps last_push v n k m e = ground arith
record_volume-Keeps push_failures v n k m e = ground arith
record_volume-Keeps skipped v n k m e = ground arith
record_volume-Keeps diverged v n k m e = ground arith
record_volume-Keeps abnormal v n k m e = ground arith
record_volume-Keeps demanded_pulls v n k m e = ground arith

health-Keeps :
    (g : Gauge) (b : Bool) (v : Volume) (n k : Bytes) (m : Metrics) → Keeps g v n k m (health b v m)
unfolding health set_at
health-Keeps armed b v n k m e = ground arith
health-Keeps pending b v n k m e = ground arith
health-Keeps unpushed b v n k m e = ground arith
health-Keeps last_push b v n k m e = ground arith
health-Keeps push_failures b v n k m e = ground arith
health-Keeps skipped b v n k m e = ground arith
health-Keeps diverged b v n k m e = ground arith
health-Keeps abnormal b v n k m e = ground arith
health-Keeps demanded_pulls b v n k m e = ground arith

demanded-Keeps :
    (g : Gauge) (v : Volume) (n k : Bytes) (m : Metrics) → Keeps g v n k m (demanded v m)
unfolding demanded set_at
demanded-Keeps armed v n k m e = ground arith
demanded-Keeps pending v n k m e = ground arith
demanded-Keeps unpushed v n k m e = ground arith
demanded-Keeps last_push v n k m e = ground arith
demanded-Keeps push_failures v n k m e = ground arith
demanded-Keeps skipped v n k m e = ground arith
demanded-Keeps diverged v n k m e = ground arith
demanded-Keeps abnormal v n k m e = ground arith
demanded-Keeps demanded_pulls v n k m e = ground arith

push_failed-Keeps :
    (g : Gauge) (v : Volume) (n k : Bytes) (m : Metrics) → Keeps g v n k m (push_failed v m)
unfolding push_failed set_at
push_failed-Keeps armed v n k m e = ground arith
push_failed-Keeps pending v n k m e = ground arith
push_failed-Keeps unpushed v n k m e = ground arith
push_failed-Keeps last_push v n k m e = ground arith
push_failed-Keeps push_failures v n k m e = ground arith
push_failed-Keeps skipped v n k m e = ground arith
push_failed-Keeps diverged v n k m e = ground arith
push_failed-Keeps abnormal v n k m e = ground arith
push_failed-Keeps demanded_pulls v n k m e = ground arith

forget_lem :
    (g : Gauge) (v : Volume) (n k : Bytes) (m : Metrics)
    → series_of g (forget v m) n k ≡ (if is_label g v n k then none else series_of g m n k)
unfolding forget forget_claim forget_volume set_at
forget_lem armed v n k m = ground arith
forget_lem pending v n k m = ground arith
forget_lem unpushed v n k m = ground arith
forget_lem last_push v n k m = ground arith
forget_lem push_failures v n k m = ground arith
forget_lem skipped v n k m = ground arith
forget_lem diverged v n k m = ground arith
forget_lem abnormal v n k m = ground arith
forget_lem demanded_pulls v n k m = ground arith

claim_alike :
    (v held : Volume) (n k : Bytes)
    → v.claim ≡ held.claim
    → is_claim_label v n k ≡ is_claim_label held n k
claim_alike v held n k claim =
    ap (λ (c : ClaimReference). not (is_empty c.name) && (same c.namespace n && same c.name k))
      claim

volume_alike :
    (v held : Volume) (n k : Bytes)
    → v.id ≡ held.id
    → namespace_of v ≡ namespace_of held
    → is_volume_label v n k ≡ is_volume_label held n k
volume_alike v held n k id namespace =
    ap (λ (i : Bytes). not (is_empty (namespace_of v)) && (same (namespace_of v) n && same i k)) id
    ∙ ap (λ (a : Bytes). not (is_empty a) && (same a n && same held.id k)) namespace

label_alike :
    (g : Gauge) (v held : Volume) (n k : Bytes)
    → v.id ≡ held.id
    → v.claim ≡ held.claim
    → namespace_of v ≡ namespace_of held
    → is_label g v n k ≡ is_label g held n k
label_alike armed v held n k id claim namespace = claim_alike v held n k claim
label_alike pending v held n k id claim namespace = claim_alike v held n k claim
label_alike unpushed v held n k id claim namespace = claim_alike v held n k claim
label_alike last_push v held n k id claim namespace = claim_alike v held n k claim
label_alike push_failures v held n k id claim namespace = claim_alike v held n k claim
label_alike skipped v held n k id claim namespace = claim_alike v held n k claim
label_alike diverged v held n k id claim namespace = claim_alike v held n k claim
label_alike abnormal v held n k id claim namespace = volume_alike v held n k id namespace
label_alike demanded_pulls v held n k id claim namespace = volume_alike v held n k id namespace

-- What a reading leaves of the metrics.
abbrev read_one : Reading → Metrics → Metrics
read_one r m = read_each (r ∷ []) m

read_one-Keeps :
    (g : Gauge) (held : Volume) (r : Reading) (n k : Bytes) (m : Metrics)
    → HasLabels held r
    → Keeps g held n k m (read_one r m)
unfolding note_health take_health namespace_of
read_one-Keeps g held (recorded now v) n k m (id, claim, namespace) e =
    record_volume-Keeps g v n k m (label_alike g v held n k id claim namespace ∙ e)
read_one-Keeps g held (noted now v) n k m (id, claim, namespace) e =
    health-Keeps g _ (take_health now v).0 n k m
      (label_alike g (take_health now v).0 held n k id claim namespace ∙ e)
read_one-Keeps g held (wanted now v) n k m (id, claim, namespace) e =
    demanded-Keeps g v n k m (label_alike g v held n k id claim namespace ∙ e)
read_one-Keeps g held (failed now v) n k m (id, claim, namespace) e =
    push_failed-Keeps g v n k m (label_alike g v held n k id claim namespace ∙ e)

read_each-Keeps :
    (g : Gauge) (held : Volume) (readings : List Reading) (n k : Bytes) (m : Metrics)
    → All (HasLabels held) readings
    → Keeps g held n k m (read_each readings m)
read_each-Keeps g held [] n k m all e = refl
read_each-Keeps g held (recorded now v ∷ more) n k m (one, all) e =
    read_each-Keeps g held more n k _ all e ∙ read_one-Keeps g held (recorded now v) n k m one e
read_each-Keeps g held (noted now v ∷ more) n k m (one, all) e =
    read_each-Keeps g held more n k _ all e ∙ read_one-Keeps g held (noted now v) n k m one e
read_each-Keeps g held (wanted now v ∷ more) n k m (one, all) e =
    read_each-Keeps g held more n k _ all e ∙ read_one-Keeps g held (wanted now v) n k m one e
read_each-Keeps g held (failed now v ∷ more) n k m (one, all) e =
    read_each-Keeps g held more n k _ all e ∙ read_one-Keeps g held (failed now v) n k m one e

else_alike :
    (b : Bool) (x y : Option ℕ)
    → (b ≡ false → x ≡ y)
    → (if b then none else x) ≡ (if b then none else y)
else_alike true x y e = refl
else_alike false x y e = e refl

-- Whatever a node read of one volume, whose id, claim and namespace stayed, the gauges and the counters that it
-- forgets with the volume are gone, and every other series reads as it did before the node read anything of it.
pub forget-read_each :
    (g : Gauge) (held : Volume) (readings : List Reading) (n k : Bytes) (m : Metrics)
    → All (HasLabels held) readings
    → series_of g (forget held (read_each readings m)) n k
      ≡ (if is_label g held n k then none else series_of g m n k)
forget-read_each g held readings n k m all =
    forget_lem g held n k (read_each readings m)
    ∙ else_alike (is_label g held n k) _ _ (read_each-Keeps g held readings n k m all)
