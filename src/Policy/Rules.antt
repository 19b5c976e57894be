-- ===== src/Policy/Rules.antt =====
-- What the rules of a class that `parsePolicy` accepts satisfy.
use git_csi_driver.Prelude.{◌≡◌, ◌⊎◌, Option, List, [], ◌∷◌, ℤ, pos, ◌≤ℤ◌, ok, >>=-eq-ok, arith}
use git_csi_driver.Prelude.Text.{Bytes}
use git_csi_driver.Prelude.Dict.{Dict, value_of}
use git_csi_driver.Prelude.Sort.{sort}
use git_csi_driver.Policy.{
  Policy, Parameter, names_of, parameter_of, read_parameter, read_parameters, shortest_quiesce,
  default_policy, parse_policy, stretch, check_latency,
}

-- A quiesce above the floor, a limit that is a size, and a latency that is never or no shorter than
-- the quiesce.
pub record AgreesWithItself (p : Policy) : Type 0 where
  pub floor : shortest_quiesce ≤ℤ p.quiesce
  pub size : pos 0 ≤ℤ p.max_file_size
  pub latency : (p.max_latency ≡ pos 0) ⊎ (p.quiesce ≤ℤ p.max_latency)

module _ (parse_duration parse_quantity : Bytes → Option ℤ) where
  abbrev Ranges : Policy → Type 0
  Ranges p = (shortest_quiesce ≤ℤ p.quiesce) × (pos 0 ≤ℤ p.max_file_size)

  read_parameter-Ranges :
      (k : Parameter) (name value : Bytes) (p : Policy) {q : Policy}
      → Ranges p
      → read_parameter parse_duration parse_quantity k name value p ≡ ok q
      → Ranges q
  unfolding read_parameter
  read_parameter-Ranges Parameter.ignore_parameter name value p r h = ground arith
  read_parameter-Ranges _ name value p r h = ground arith

  read_parameters-Ranges :
      (names : List Bytes) (m : Dict Bytes) (p : Policy) {q : Policy}
      → Ranges p
      → read_parameters parse_duration parse_quantity names m p ≡ ok q
      → Ranges q
  unfolding read_parameters
  read_parameters-Ranges [] m p r h = ground arith
  read_parameters-Ranges (name ∷ names) m p r h =
      let first =
        read_parameter parse_duration parse_quantity (parameter_of name) name (value_of name m) p in
      let (next, e, rest) = >>=-eq-ok first _ h in
      read_parameters-Ranges names m next
        (read_parameter-Ranges (parameter_of name) name (value_of name m) p r e) rest

  -- The rules of a class that is read have a quiesce of at least five seconds, a size limit of zero or
  -- more, and a maximum latency that is zero, which is none, or at least the quiesce.
  pub parse_policy-AgreesWithItself :
      (m : Dict Bytes) {p : Policy}
      → parse_policy parse_duration parse_quantity m ≡ ok p
      → AgreesWithItself p
  unfolding parse_policy default_policy stretch check_latency
  parse_policy-AgreesWithItself m {p} h =
      let all =
        read_parameters parse_duration parse_quantity (sort (names_of m)) m default_policy in
      let (resolved, e, rest) = >>=-eq-ok all _ h in
      let r = read_parameters-Ranges (sort (names_of m)) m default_policy (ground arith) e in
      ground arith
