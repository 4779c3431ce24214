-- ===== src/Container.antt =====
-- internal/smoke/container.go: the specification of a package's container, its check, its
-- environment and the command line of docker run. The share of a CPU that strconv.FormatFloat
-- prints is a parameter.
pub mod Environment
pub mod Memory
pub mod Tail
pub mod Stack
pub mod Tracked
pub mod Cleanup
pub mod Argv
pub mod RunLine
pub mod Confined
pub mod Tests
use mcp_library.Common.{
  ℕ, zero, suc, Bool, true, false, ◌&&◌, ◌||◌, not, List, [], ◌∷◌, ◌++◌, ◌^◌, ◌-◌, map, Option,
  none, some, is_nil, leb, ltb, ◌==◌, if◌then◌else◌,
}
use mcp_library.Common.Decimal.{itoa}
use mcp_library.Common.Int.{ℤ, pos, ltb_ℤ, all_digits, digits_value}
use mcp_library.Common.Keyed.{and_then, or_first}
use mcp_library.Common.Sort.{sort_by}
use mcp_library.Common.Text.{
  Text, codes, text_eq, text_lt, has_suffix, trim_suffix, has_prefix, mem, join,
}
use mcp_library.Lock.{fields}
use mcp_library.Smoke.Egress.{Param, EgressRule}

pub record Manifest : Type 0 where
  pub params : List Param
  pub egress : List EgressRule
  pub cpu_max : Text
  pub memory_max : Text
  pub pids_max : ℤ

-- The maps are lists of pairs with one pair for each key.
pub record Spec : Type 0 where
  pub name : Text
  pub image : Text
  pub srv_dir : Text
  pub runtime : Text
  pub entrypoint : List Text
  pub manifest : Manifest
  pub env : List (Text × Text)
  pub param_values : List (Text × Text)
  pub transport : Text
  pub socket_dir : Text
  pub network : Text
  pub proxy_addr : Text

abbrev listen_socket_env : Text
listen_socket_env = codes "MCPGW_LISTEN_SOCKET"

abbrev pub control_env : List Text
control_env =
    codes "PATH"
    ∷ codes "HOME"
    ∷ codes "TMPDIR"
    ∷ listen_socket_env
    ∷ codes "HTTPS_PROXY"
    ∷ codes "HTTP_PROXY"
    ∷ codes "NO_PROXY"
    ∷ codes "https_proxy"
    ∷ codes "http_proxy"
    ∷ codes "no_proxy"
    ∷ codes "ALL_PROXY"
    ∷ codes "all_proxy"
    ∷ []

abbrev first_of : List Text → Option Text
first_of [] = none
first_of (x ∷ xs) = some x

unfoldable pub dummy_value : Param → Option Text
dummy_value p =
    if p.secret
    then some (codes "smoke-dummy-" ++ p.name)
    else if not p.required
    then none
    else if not (text_eq p.default_value [])
    then some p.default_value
    else or_first (first_of p.enum) (
        if text_eq p.kind (codes "int")
        then some (codes "1")
        else if text_eq p.kind (codes "bool")
        then some (codes "true")
        else some (codes "smoke"))

abbrev pub max_uint64 : ℕ
max_uint64 = 2 ^ 64 - 1

-- `strconv.ParseUint(s, 10, 64)`.
unfoldable pub parse_uint : Text → Option ℕ
unfolding digits_value
parse_uint [] = none
parse_uint (c ∷ s) =
    if all_digits (c ∷ s) && leb (digits_value (c ∷ s)) max_uint64
    then some (digits_value (c ∷ s))
    else none

abbrev pub units : List (Text × Text)
units =
    (codes "Ki", codes "k")
    ∷ (codes "Mi", codes "m")
    ∷ (codes "Gi", codes "g")
    ∷ (codes "K", codes "k")
    ∷ (codes "M", codes "m")
    ∷ (codes "G", codes "g")
    ∷ []

-- The number and the unit that docker spells it with.
abbrev pub cut_unit : List (Text × Text) → Text → Text × Text
cut_unit [] v = (v, [])
cut_unit ((suffix, unit) ∷ more) v =
    let rest = cut_unit more v in if has_suffix suffix v then (trim_suffix suffix v, unit) else rest

abbrev pub positive : Option ℕ → Option ℕ
positive none = none
positive (some zero) = none
positive (some (suc n)) = some (suc n)

unfoldable pub docker_memory : Text → Option Text
unfolding has_suffix trim_suffix parse_uint itoa
docker_memory v =
    and_then (positive (parse_uint ((cut_unit units v).0)))
      (λ n. some (itoa (pos n) ++ (cut_unit units v).1))

module _ (format_share : ℕ → ℕ → Text) where
  abbrev pub share_of : Option ℕ → Option ℕ → Option Text
  share_of (some q) (some p) =
      if text_eq (format_share q p) (codes "0.00") then none else some (format_share q p)
  share_of _ _ = none

  abbrev pub quota : List Text → Option Text
  quota (q ∷ p ∷ []) = share_of (positive (parse_uint q)) (positive (parse_uint p))
  quota _ = none

  -- No limit is the empty text.
  unfoldable pub docker_cpus : Text → Option Text
  unfolding fields parse_uint
  docker_cpus v = if text_eq v [] || text_eq v (codes "max") then some [] else quota (fields v)

  abbrev pub is_abs_path : Text → Bool
  is_abs_path path = has_prefix (codes "/") path

  pub data SpecError : Type 0 where
    no_image relative_dir no_entrypoint relative_socket bad_transport no_network no_proxy :
        SpecError
    bad_pids bad_memory bad_cpus : SpecError

  abbrev pub unless_spec : Bool → SpecError → List SpecError
  unless_spec fine e = if fine then [] else e ∷ []

  abbrev pub transport_errors : Spec → List SpecError
  transport_errors s =
      if text_eq s.transport (codes "stdio")
      then []
      else if text_eq s.transport (codes "http")
      then unless_spec (is_abs_path s.socket_dir) relative_socket
      else bad_transport ∷ []

  -- `Validate`: the errors that it joins.
  unfoldable pub spec_errors : Spec → List SpecError
  unfolding has_prefix docker_memory docker_cpus
  spec_errors s =
      unless_spec (not (text_eq s.image [])) no_image
      ++ (unless_spec (is_abs_path s.srv_dir) relative_dir
          ++ (unless_spec (not (is_nil s.entrypoint)) no_entrypoint
              ++ (transport_errors s
                  ++ (unless_spec (not (text_eq s.network [])) no_network
                      ++ (unless_spec (is_nil s.manifest.egress || not (text_eq s.proxy_addr []))
                            no_proxy
                          ++ (unless_spec (ltb_ℤ (pos 0) s.manifest.pids_max) bad_pids
                              ++ (unless_spec (is_set (docker_memory s.manifest.memory_max))
                                    bad_memory
                                  ++ unless_spec (is_set (docker_cpus s.manifest.cpu_max))
                                      bad_cpus)))))))
    where
      is_set : Option Text → Bool
      is_set none = false
      is_set (some t) = true

abbrev runtime_path : Text → Text
runtime_path runtime =
    if not (text_eq runtime []) && not (text_eq runtime (codes "native"))
    then codes "/opt/mcpgw/runtimes/" ++ (runtime ++ codes "/bin")
    else []

-- The variables with their values, in the order of the names.
abbrev pub Env : Type 0
Env = List (Text × Text)

abbrev pub base_env : Spec → Env
base_env s =
    (codes "PATH", runtime_path s.runtime)
    ∷ (codes "HOME", codes "/state")
    ∷ (codes "TMPDIR", codes "/tmp")
    ∷ (listen_socket_env, codes "/run/mcpgw/mcp.sock")
    ∷ []

abbrev pub set_var : Text → Text → Env → Env
set_var k v [] = (k, v) ∷ []
set_var k v ((k', v') ∷ env) =
    let rest = set_var k v env in if text_eq k' k then (k', v) ∷ env else (k', v') ∷ rest

abbrev pub add_var : Text → Text → Env → Env
add_var k v env = if text_eq k [] || mem k control_env then env else set_var k v env

abbrev pub add_vars : List (Text × Text) → Env → Env
add_vars [] env = env
add_vars ((k, v) ∷ vars) env = add_vars vars (add_var k v env)

abbrev pub value_of : Text → List (Text × Text) → Option Text
value_of k [] = none
value_of k ((k', v) ∷ vars) = let rest = value_of k vars in if text_eq k' k then some v else rest

-- The variables of the params that are set at all.
abbrev pub param_vars : List (Text × Text) → List Param → List (Text × Text)
param_vars values [] = []
param_vars values (p ∷ params) = elim (or_first (value_of p.name values) (dummy_value p)) [
  | none ↦ param_vars values params
  | some v ↦ (p.env, v) ∷ param_vars values params
]

abbrev pub sorted_vars : List (Text × Text) → List (Text × Text)
sorted_vars = sort_by (λ a b. text_lt a.0 b.0)

abbrev pub package_env : Spec → Env
package_env s =
    add_vars (param_vars s.param_values s.manifest.params)
      (add_vars (sorted_vars s.env) (base_env s))

abbrev pub proxy_env : Spec → Env
proxy_env s =
    let url = codes "http://" ++ s.proxy_addr in
    if text_eq s.proxy_addr []
    then []
    else (codes "HTTPS_PROXY", url)
      ∷ (codes "HTTP_PROXY", url)
      ∷ (codes "https_proxy", url)
      ∷ (codes "http_proxy", url)
      ∷ (codes "NO_PROXY", [])
      ∷ (codes "no_proxy", [])
      ∷ []

-- The pairs that containerEnv prints.
unfoldable pub env_pairs : Spec → Env
unfolding mem text_lt dummy_value
env_pairs s = package_env s ++ proxy_env s

unfoldable pub container_env : Spec → List Text
unfolding env_pairs
container_env s = map (λ kv. kv.0 ++ (b'=' ∷ kv.1)) (env_pairs s)
