-- ===== src/Metrics.antt =====
-- metrics.go: the gauges and the counters of the volumes. `Forgotten` has what stays of a volume that the node
-- forgets.
--
-- A series is a partial function of its two labels, and a counter that is missing stands at nothing. The
-- histograms, the series of the repositories, of the calls and of the listener, and the way to Prometheus are
-- left out, as is the nil `metrics` of the tests.
pub mod Forgotten
use git_csi_driver.Prelude.{
  ℕ, suc, ◌-◌, ◌/◌, Bool, true, false, not, ◌&&◌, Option, none, some, [], ◌∷◌, ◌==◌, if◌then◌else◌,
  length,
}
use git_csi_driver.Prelude.Text.{Bytes, same, is_empty}
use git_csi_driver.Prelude.Dict.{Dict, lookup, insert}
use git_csi_driver.Volume.{Volume, namespace_of, take_health}

abbrev pub Series : Type 0
Series = Bytes → Bytes → Option ℕ

unfoldable pub set_at : Bytes → Bytes → Option ℕ → Series → Series
set_at namespace name value s n m = if same namespace n && same name m then value else s n m

abbrev one_more : Option ℕ → Option ℕ
one_more none = some 1
one_more (some n) = some (suc n)

-- The first seven are labelled with a claim, the others with a namespace and a volume.
pub record Metrics : Type 0 where
  pub armed : Series
  pub pending : Series
  pub unpushed : Series
  pub last_push : Series
  pub push_failures : Series
  pub skipped : Series
  pub diverged : Series
  pub abnormal : Series
  pub demanded_pulls : Series

unfoldable pub gauge : Bool → ℕ
gauge true = 1
gauge false = 0

-- `time.Unix`, of a time that is not zero.
abbrev unix : ℕ → ℕ
unix at = at / 1000000000 - 62135596800

-- `record`
unfoldable pub record_volume : Volume → Metrics → Metrics
unfolding set_at gauge
record_volume held m =
    let set = set_at held.claim.namespace held.claim.name in
    if is_empty held.claim.name then m else record m {
      armed = set (some (gauge held.armed)) m.armed;
      pending = set (some (length held.pending)) m.pending;
      unpushed = set (some held.unpushed) m.unpushed;
      skipped = set (some (length held.skipped)) m.skipped;
      diverged = set (some (gauge (not (is_empty held.diverged)))) m.diverged;
      last_push =
          if held.last_push == 0 then m.last_push else set (some (unix held.last_push)) m.last_push;
    }

unfoldable pub health : Bool → Volume → Metrics → Metrics
unfolding set_at gauge namespace_of
health is_abnormal held m = if is_empty (namespace_of held) then m else record m {
  abnormal = set_at (namespace_of held) held.id (some (gauge is_abnormal)) m.abnormal;
}

unfoldable pub note_health : ℕ → Volume → Metrics → Volume × Metrics
unfolding health take_health
note_health now held m = let (v, said, moved) = take_health now held in (v, health said.0 v m)

unfoldable pub demanded : Volume → Metrics → Metrics
unfolding set_at namespace_of
demanded held m = if is_empty (namespace_of held) then m else record m {
  demanded_pulls =
      set_at (namespace_of held) held.id (one_more (m.demanded_pulls (namespace_of held) held.id))
        m.demanded_pulls;
}

unfoldable pub push_failed : Volume → Metrics → Metrics
unfolding set_at
push_failed held m = if is_empty held.claim.name then m else record m {
  push_failures =
      set_at held.claim.namespace held.claim.name
        (one_more (m.push_failures held.claim.namespace held.claim.name)) m.push_failures;
}

-- `forget`: the series of the volume, and those of its claim.
unfoldable pub forget_volume : Volume → Metrics → Metrics
unfolding set_at namespace_of
forget_volume held m = if is_empty (namespace_of held) then m else record m {
  abnormal = set_at (namespace_of held) held.id none m.abnormal;
  demanded_pulls = set_at (namespace_of held) held.id none m.demanded_pulls;
}

unfoldable pub forget_claim : Volume → Metrics → Metrics
unfolding set_at
forget_claim held m =
    let unset = set_at held.claim.namespace held.claim.name none in
    if is_empty held.claim.name then m else record m {
      armed = unset m.armed;
      pending = unset m.pending;
      unpushed = unset m.unpushed;
      last_push = unset m.last_push;
      push_failures = unset m.push_failures;
      skipped = unset m.skipped;
      diverged = unset m.diverged;
    }

unfoldable pub forget : Volume → Metrics → Metrics
unfolding forget_volume forget_claim
forget held m = forget_claim held (forget_volume held m)

-- `volumesByRepo`: how many of the volumes follow each repository, by its name.
unfoldable pub volumes_by_repository : (Bytes → Bytes) → Dict Volume → Dict ℕ → Dict ℕ
unfolding lookup insert
volumes_by_repository name_of [] counts = counts
volumes_by_repository name_of ((id, held) ∷ volumes) counts =
    let name = name_of held.attributes.url in
    let count : ℕ = elim (lookup name counts) [ none ↦ 1 | some n ↦ suc n ] in
    volumes_by_repository name_of volumes (insert name count counts)
