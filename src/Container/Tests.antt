-- ===== src/Container/Tests.antt =====
-- A container of a package that speaks over a socket, and the theorems at it.
use mcp_library.Common.{ℕ, ◌<◌, ◌≡◌, refl, Bool, true, false, [], ◌∷◌, some, if◌then◌else◌}
use mcp_library.Common.Int.{pos}
use mcp_library.Common.Keyed.{or_first}
use mcp_library.Common.Text.{Text, codes, text_eq, mem, text_compare}
use mcp_library.Container.{
  Spec, docker_memory, spec_errors, base_env, proxy_env, value_of, param_vars, sorted_vars,
  env_pairs, no_proxy, container_env,
}
use mcp_library.Container.Argv.{container_args, proxy_args}
use mcp_library.Container.Confined.{Confines, container_args-Confines}
use mcp_library.Container.RunLine.{IsImage, read_line, after_run}
use mcp_library.Container.Environment.{last_value, is_settable, env_pairs_lookup}
use mcp_library.Container.Memory.{manifest_bytes, docker_bytes, docker_memory-bytes}
use mcp_library.Container.Stack.{
  Resource, net, box, Removal, removed, says_missing, failed, Stack, new_stack, up, start, down,
  left_by_create,
}
use mcp_library.Container.Tail.{write_all, tail_of, concat, write_all-tail_of}
use mcp_library.Smoke.Egress.{Param}

runs : Unit {0}
unfolding text_eq mem text_compare env_pairs container_env container_args proxy_args spec_errors
    down up start write_all
runs = tt

abbrev param : Text → Text → Bool → Bool → Text → Param
param name env secret required kind = record {
  name = name;
  env = env;
  secret = secret;
  required = required;
  kind = kind;
  default_value = [];
  enum = [];
}

abbrev spec : Spec
spec = record {
  name = codes "pkg";
  image = codes "build@sha256:00";
  srv_dir = codes "/tmp/srv";
  runtime = codes "node@22";
  entrypoint = codes "server" ∷ [];
  manifest = record {
    params =
        param (codes "token") (codes "TOKEN") true true (codes "string")
        ∷ param (codes "retries") (codes "RETRIES") false true (codes "int")
        ∷ param (codes "proxy") (codes "HTTPS_PROXY") false true (codes "string")
        ∷ [];
    egress = record { host = codes "example.com"; cidr = []; port = pos 443 } ∷ [];
    cpu_max = codes "max";
    memory_max = codes "512Mi";
    pids_max = pos 64;
  };
  env =
      (codes "RETRIES", codes "5")
      ∷ (codes "PATH", codes "/evil")
      ∷ (codes "DEBUG", codes "1")
      ∷ [];
  param_values = [];
  transport = codes "http";
  socket_dir = codes "/tmp/sock";
  network = codes "net0";
  proxy_addr = codes "net0-proxy:3128";
}

abbrev no_share : ℕ → ℕ → Text
no_share q p = codes "0.50"

test_fine : spec_errors no_share spec ≡ []
unfolding runs
test_fine = refl

test_no_proxy : spec_errors no_share (record spec { proxy_addr = [] }) ≡ no_proxy ∷ []
unfolding runs
test_no_proxy = refl

test_path :
    value_of (codes "PATH") (env_pairs spec) ≡ some (codes "/opt/mcpgw/runtimes/node@22/bin")
unfolding runs
test_path = refl

test_retries : value_of (codes "RETRIES") (env_pairs spec) ≡ some (codes "1")
unfolding runs
test_retries = refl

test_memory : docker_memory (codes "512Mi") ≡ some (codes "512m")
unfolding docker_memory text_eq
test_memory = refl

test_tail : write_all 4 [] (codes "abc" ∷ codes "de" ∷ codes "f" ∷ []) ≡ codes "cdef"
unfolding runs
test_tail = refl

image_named : IsImage spec.image
unfolding text_eq mem
image_named = (refl, refl)

container_args-Confines_example :
    Confines no_share spec image_named (read_line (after_run (container_args no_share spec)))
container_args-Confines_example = container_args-Confines no_share spec image_named

env_pairs_lookup_example : value_of (codes "HTTPS_PROXY") (env_pairs spec) ≡ (
    if is_settable (codes "HTTPS_PROXY")
    then or_first
        (last_value (codes "HTTPS_PROXY") (param_vars spec.param_values spec.manifest.params))
        (last_value (codes "HTTPS_PROXY") (sorted_vars spec.env))
    else or_first
        (value_of (codes "HTTPS_PROXY") (base_env spec))
        (value_of (codes "HTTPS_PROXY") (proxy_env spec)))
env_pairs_lookup_example = env_pairs_lookup spec (codes "HTTPS_PROXY")

docker_memory-bytes_example :
    (n : ℕ) × (0 < n)
    × (manifest_bytes (codes "512Mi") ≡ some n)
    × (docker_bytes (codes "512m") ≡ some n)
docker_memory-bytes_example = docker_memory-bytes (codes "512Mi") (codes "512m") test_memory

write_all-tail_of_example :
    write_all 4 [] (codes "abc" ∷ codes "de" ∷ codes "f" ∷ [])
    ≡ tail_of 4 (concat (codes "abc" ∷ codes "de" ∷ codes "f" ∷ []))
write_all-tail_of_example = write_all-tail_of 4 (codes "abc" ∷ codes "de" ∷ codes "f" ∷ [])

-- A package that is started twice, and docker that first refuses to remove the network.
abbrev stuck : Resource → Removal
stuck (net n) = failed true
stuck (box n) = removed

abbrev willing : Resource → Removal
willing r = removed

-- Docker itself is not found.
abbrev no_docker : Resource → Removal
no_docker r = says_missing true

abbrev running : Stack
running = start (codes "b") false (start (codes "a") true (up (codes "n") true true true new_stack))

abbrev nothing_lost : Resource → Bool
nothing_lost = left_by_create (codes "n") true true

abbrev first_down : Stack
first_down = (down stuck running).0

test_left : first_down.live ≡ net (codes "n") ∷ []
unfolding runs
test_left = refl

-- Where docker is not found, Down reports no error and removes nothing, and forgets it all.
test_no_docker : down no_docker running ≡ (
  record {
    network = codes "n";
    net_made = false;
    proxy_made = false;
    pkgs = [];
    live = running.live;
  },
  [],
)
unfolding runs
test_no_docker = refl

-- The network behind a create that failed is not removed.
test_network_left :
    ((down willing (up (codes "n") false true false new_stack)).0).live ≡ net (codes "n") ∷ []
unfolding runs
test_network_left = refl
