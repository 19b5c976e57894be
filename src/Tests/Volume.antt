-- ===== src/Tests/Volume.antt =====
-- Volumes on concrete input.
use git_csi_driver.Prelude.{◌≡◌, refl, inl, true, false, [], ◌∷◌, arith}
use git_csi_driver.Prelude.Text.{codes, has_suffix}
use git_csi_driver.Volume.{take_demand, answer_demands_before, Credentials}
use git_csi_driver.Volume.Demand.{
  fetched, demanded, moments, take_demand_missing_none, take_demand_answered,
}
use git_csi_driver.Volume.Credential.Files.{end_with_newline, quote, credential_helper}
use git_csi_driver.Prelude.{length}
use git_csi_driver.Volume.{read_only_claim}
use git_csi_driver.Events.{trouble}
use git_csi_driver.Tests.Data.{a_volume}

abbrev a_credential : Credentials
a_credential = record {
  private_key = [];
  known_hosts = [];
  token = codes "t";
  username = codes "git";
}

-- A demand that is stamped half a minute before the fetch that came before it is taken.
take_demand_missing_none_example :
    (take_demand 270000000000 300000000000 (moments (fetched 300000000000 ∷ []) a_volume)).1 ≡ true
unfolding moments answer_demands_before
take_demand_missing_none_example =
    take_demand_missing_none (fetched 300000000000 ∷ []) a_volume 270000000000 300000000000
      (inl refl) (omega arith, tt) (omega arith) (omega arith) (omega arith)

take_demand_answered_example :
    (take_demand 200000000000 400000000000 (
      moments
        (demanded 290000000000 310000000000 ∷ [])
        (answer_demands_before 300000000000 a_volume))).1
    ≡ false
take_demand_answered_example =
    take_demand_answered 300000000000 (demanded 290000000000 310000000000 ∷ []) a_volume
      200000000000 400000000000 (omega arith)

-- A Secret from a file that lacks its last newline, and a path with a quote.
newline_test :
    (end_with_newline (codes "k") ≡ codes "k\n") × (end_with_newline (codes "k\n") ≡ codes "k\n")
unfolding end_with_newline has_suffix
newline_test = (refl, refl)

quote_test : quote (codes "/it's") ≡ codes "'/it'\\''s'"
unfolding quote
quote_test = refl

helper_test :
    credential_helper (codes "git") (codes "t")
    ≡ codes "#!/bin/sh\ncat <<'GIT_CSI_CREDENTIAL'\nusername=git\npassword=t\nGIT_CSI_CREDENTIAL\n"
unfolding credential_helper
helper_test = refl

-- A read-only claim that two pods mount tells both of them and the claim, once for a row of failures.
trouble_test :
    let held = record a_volume {
      kind = read_only_claim;
      trouble = [];
      targets =
          (codes "/a", record { name = codes "p"; namespace = codes "n"; uid = [] })
          ∷ (codes "/b", record { name = codes "q"; namespace = codes "n"; uid = [] })
          ∷ [];
      claim = record { namespace = codes "n"; name = codes "c" };
    } in
    (length (trouble true (codes "node") 7 (codes "no route") held).1 ≡ 3)
    × ((trouble true
          (codes "node")
          8
          (codes "no route")
          (trouble true (codes "node") 7 (codes "no route") held).0).1
        ≡ [])
unfolding trouble git_csi_driver.Volume.report_trouble git_csi_driver.Volume.bound_pods
trouble_test = (refl, refl)
