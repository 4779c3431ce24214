-- ===== src/Container/Argv.antt =====
-- internal/smoke/container.go: the command lines of the package's and of the proxy's docker run.
use mcp_library.Common.{ℕ, Bool, List, [], ◌∷◌, ◌++◌, Option, none, some, if◌then◌else◌}
use mcp_library.Common.Decimal.{itoa}
use mcp_library.Common.Int.{ℤ}
use mcp_library.Common.Text.{Text, codes, text_eq, join}
use mcp_library.Container.{Spec, container_env, docker_memory, docker_cpus}
use mcp_library.Container.Stack.{proxy_name}

abbrev pub text_or_empty : Option Text → Text
text_or_empty none = []
text_or_empty (some t) = t

abbrev pub tmpfs_opts : Text
tmpfs_opts = codes ":rw,nosuid,nodev,exec,uid=65534,gid=65534"

abbrev pub srv_mount : Spec → Text
srv_mount s = codes "type=bind,src=" ++ (s.srv_dir ++ codes ",dst=/srv,readonly")

abbrev pub socket_mount : Spec → Text
socket_mount s = codes "type=bind,src=" ++ (s.socket_dir ++ codes ",dst=/run/mcpgw")

abbrev pub env_args : List Text → List Text
env_args [] = []
env_args (e ∷ es) = codes "--env" ∷ e ∷ env_args es

abbrev pub cpu_args : Text → List Text
cpu_args cpus = if text_eq cpus [] then [] else codes "--cpus" ∷ cpus ∷ []

abbrev pub shell_args : List Text
shell_args =
    codes "/bin/sh" ∷ codes "-c" ∷ codes "umask 0000 && exec \"$@\"" ∷ codes "mcplib-smoke" ∷ []

module _ (format_share : ℕ → ℕ → Text) where
  -- The flags of the lock-down.
  abbrev pub confinement : Spec → List Text → List Text
  confinement s rest =
      codes "--network"
      ∷ s.network
      ∷ codes "--read-only"
      ∷ codes "--user"
      ∷ codes "65534:65534"
      ∷ codes "--cap-drop"
      ∷ codes "ALL"
      ∷ codes "--security-opt"
      ∷ codes "no-new-privileges"
      ∷ codes "--tmpfs"
      ∷ (codes "/state" ++ tmpfs_opts)
      ∷ codes "--tmpfs"
      ∷ (codes "/tmp" ++ tmpfs_opts)
      ∷ codes "--mount"
      ∷ srv_mount s
      ∷ codes "--workdir"
      ∷ codes "/srv"
      ∷ rest

  abbrev pub limits : Spec → List Text → List Text
  limits s rest =
      codes "--memory"
      ∷ text_or_empty (docker_memory s.manifest.memory_max)
      ∷ (cpu_args (text_or_empty (docker_cpus format_share s.manifest.cpu_max))
          ++ (codes "--pids-limit" ∷ itoa s.manifest.pids_max ∷ rest))

  abbrev pub command_args : (over_http : Bool) → Spec → List Text
  command_args over_http s = s.image ∷ ((if over_http then shell_args else []) ++ s.entrypoint)

  abbrev pub argv : (over_stdio over_http : Bool) → Spec → List Text → List Text
  argv over_stdio over_http s env =
      codes "run"
      ∷ codes "--rm"
      ∷ codes "--init"
      ∷ codes "--name"
      ∷ s.name
      ∷ ((if over_stdio then codes "-i" ∷ [] else [])
          ++ confinement s (
              (if over_http then codes "--mount" ∷ socket_mount s ∷ [] else [])
              ++ limits s (env_args env ++ command_args over_http s)))

  unfoldable pub container_args : Spec → List Text
  unfolding container_env docker_memory docker_cpus itoa
  container_args s =
      argv (text_eq s.transport (codes "stdio")) (text_eq s.transport (codes "http")) s
        (container_env s)

-- The proxy's, for a user and a group.
unfoldable pub proxy_args : ℤ → ℤ → Text → Text → Text → Text → List Text → List Text
unfolding join itoa
proxy_args uid gid network image mcplib log_dir allow =
    codes "run"
    ∷ codes "-d"
    ∷ codes "--name"
    ∷ proxy_name network
    ∷ codes "--network"
    ∷ network
    ∷ codes "--read-only"
    ∷ codes "--user"
    ∷ (itoa uid ++ (b':' ∷ itoa gid))
    ∷ codes "--cap-drop"
    ∷ codes "ALL"
    ∷ codes "--security-opt"
    ∷ codes "no-new-privileges"
    ∷ codes "--mount"
    ∷ (codes "type=bind,src=" ++ (mcplib ++ codes ",dst=/mcplib,readonly"))
    ∷ codes "--mount"
    ∷ (codes "type=bind,src=" ++ (log_dir ++ codes ",dst=/log"))
    ∷ image
    ∷ codes "/mcplib"
    ∷ codes "egress-proxy"
    ∷ codes "--listen"
    ∷ codes ":3128"
    ∷ codes "--allow"
    ∷ join b',' allow
    ∷ codes "--log"
    ∷ codes "/log/proxy.jsonl"
    ∷ []
