-- ===== src/Tests/Read.antt =====
-- The attributes and the policy on concrete input.
use git_csi_driver.Prelude.{◌≡◌, refl, false, Option, some, [], ◌∷◌, ok, pos, ℤ}
use git_csi_driver.Prelude.Text.{Bytes, codes}
use git_csi_driver.Prelude.Dict.{Dict}
use git_csi_driver.Attributes.{
  parse_volume_context, transport_helper, Attributes, default_pull, pull_every, no_pod,
}
use git_csi_driver.Attributes.Context.{IsServable, parse_volume_context-IsServable}
use git_csi_driver.Policy.{parse_policy, default_policy}
use git_csi_driver.Policy.Rules.{AgreesWithItself, parse_policy-AgreesWithItself}
use git_csi_driver.Tests.Data.{url}

-- A parser that reads one duration.
abbrev a_minute : Bytes → Option ℤ
a_minute text = some (pos 60)

abbrev context : Dict Bytes
context = (codes "url", url) ∷ (codes "ref", codes "v1") ∷ []

abbrev read_context : Attributes
read_context = record {
  url = url;
  ref = codes "v1";
  pull = pull_every default_pull;
  depth = pos 0;
  offline = git_csi_driver.Attributes.offline_refuse;
  ephemeral = false;
  pod = no_pod;
  webhook_secret = [];
}

context_runs : parse_volume_context a_minute context ≡ ok read_context
unfolding parse_volume_context
context_runs = refl

parse_volume_context-IsServable_example : IsServable read_context
parse_volume_context-IsServable_example =
    parse_volume_context-IsServable a_minute context context_runs

abbrev class : Dict Bytes
class = (codes "commit.quiesce", codes "1m") ∷ (codes "commit.ignore", codes "*.tmp") ∷ []

abbrev turned_class : Dict Bytes
turned_class = (codes "commit.ignore", codes "*.tmp") ∷ (codes "commit.quiesce", codes "1m") ∷ []

policy_runs : parse_policy a_minute a_minute [] ≡ ok default_policy
unfolding parse_policy
policy_runs = refl

parse_policy-AgreesWithItself_example : AgreesWithItself default_policy
parse_policy-AgreesWithItself_example =
    parse_policy-AgreesWithItself a_minute a_minute [] policy_runs
