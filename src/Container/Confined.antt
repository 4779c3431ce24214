-- ===== src/Container/Confined.antt =====
-- internal/smoke/container.go: what docker run reads in the command line of a package.
use mcp_library.Common.{
  ℕ, ◌≡◌, refl, sym, ap, subst, ◌∙◌, Bool, true, false, List, [], ◌∷◌, ◌++◌, map, if◌then◌else◌,
}
use mcp_library.Common.Text.{Text, codes, text_eq, mem}
use mcp_library.Common.Decimal.{itoa}
use mcp_library.Container.{Spec, container_env, docker_memory, docker_cpus}
use mcp_library.Container.Argv.{
  container_args, argv, cpu_args, env_args, srv_mount, socket_mount, shell_args, command_args,
  text_or_empty, tmpfs_opts,
}
use mcp_library.Container.RunLine.{
  RunLine, read_line, after_run, values_of, env_option, IsImage, read_line-env,
}

-- What stands in front of the limits of the CPU and of the processes.
abbrev in_front : Spec → Text → Bool → Bool → RunLine → RunLine
in_front s memory over_stdio over_http later = record later {
  switched =
      codes "--rm"
      ∷ codes "--init"
      ∷ ((if over_stdio then codes "-i" ∷ [] else []) ++ (codes "--read-only" ∷ later.switched));
  options =
      (codes "--name", s.name)
      ∷ (codes "--network", s.network)
      ∷ (codes "--user", codes "65534:65534")
      ∷ (codes "--cap-drop", codes "ALL")
      ∷ (codes "--security-opt", codes "no-new-privileges")
      ∷ (codes "--tmpfs", codes "/state" ++ tmpfs_opts)
      ∷ (codes "--tmpfs", codes "/tmp" ++ tmpfs_opts)
      ∷ (codes "--mount", srv_mount s)
      ∷ (codes "--workdir", codes "/srv")
      ∷ ((if over_http then (codes "--mount", socket_mount s) ∷ [] else [])
          ++ ((codes "--memory", memory) ∷ later.options));
}

module _ (format_share : ℕ → ℕ → Text) (s : Spec) (image : IsImage s.image) where
  abbrev memory : Text
  memory = text_or_empty (docker_memory s.manifest.memory_max)

  abbrev cpus : Text
  cpus = text_or_empty (docker_cpus format_share s.manifest.cpu_max)

  abbrev after_limits : RunLine → RunLine
  after_limits later = record later {
    options =
        (if text_eq cpus [] then [] else (codes "--cpus", cpus) ∷ [])
        ++ ((codes "--pids-limit", itoa s.manifest.pids_max) ∷ later.options);
  }

  read_line-limits :
      (rest : List Text)
      → read_line (cpu_args cpus ++ (codes "--pids-limit" ∷ itoa s.manifest.pids_max ∷ rest))
        ≡ after_limits (read_line rest)
  unfolding mem text_eq
  read_line-limits rest = by_test (text_eq cpus [])
    where
      by_test :
          (no_limit : Bool)
          → read_line (
              (if no_limit then [] else codes "--cpus" ∷ cpus ∷ [])
              ++ (codes "--pids-limit" ∷ itoa s.manifest.pids_max ∷ rest))
            ≡ record (read_line rest) {
              options =
                  (if no_limit then [] else (codes "--cpus", cpus) ∷ [])
                  ++ ((codes "--pids-limit", itoa s.manifest.pids_max) ∷ (read_line rest).options);
            }
      by_test true = refl
      by_test false = refl

  abbrev env_line : Bool → List Text → RunLine
  env_line over_http env = record {
    switched = [];
    options = map env_option env;
    image = s.image;
    command = (if over_http then shell_args else []) ++ s.entrypoint;
  }

  read_line-argv :
      (over_stdio over_http : Bool) (env : List Text)
      → read_line (after_run (argv format_share over_stdio over_http s env))
        ≡ in_front s memory over_stdio over_http (after_limits (env_line over_http env))
  unfolding mem text_eq
  read_line-argv over_stdio over_http env = by_tests over_stdio over_http
    where
      read :
          (over_http : Bool)
          → read_line (
              cpu_args cpus
              ++ (codes "--pids-limit"
                  ∷ itoa s.manifest.pids_max
                  ∷ (env_args env ++ command_args format_share over_http s)))
            ≡ after_limits (env_line over_http env)
      read over_http =
          read_line-limits (env_args env ++ command_args format_share over_http s)
          ∙ ap after_limits (
              read_line-env env s.image ((if over_http then shell_args else []) ++ s.entrypoint)
                image)

      by_tests :
          (over_stdio over_http : Bool)
          → read_line (after_run (argv format_share over_stdio over_http s env))
            ≡ in_front s memory over_stdio over_http (after_limits (env_line over_http env))
      by_tests true true = ap (in_front s memory true true) (read true)
      by_tests true false = ap (in_front s memory true false) (read false)
      by_tests false true = ap (in_front s memory false true) (read true)
      by_tests false false = ap (in_front s memory false false) (read false)

  values-env : (env : List Text) → values_of (codes "--env") (map env_option env) ≡ env
  unfolding text_eq
  values-env [] = refl
  values-env (e ∷ env) = ap (λ es. e ∷ es) (values-env env)

  other-env :
      (k : Text) (env : List Text)
      → text_eq (codes "--env") k ≡ false
      → values_of k (map env_option env) ≡ []
  other-env k [] h = refl
  other-env k (e ∷ env) h = rw (h, other-env k env h) refl

  -- The command line confines the package.
  pub record Confines (line : RunLine) : Type 0 where
    pub networks : values_of (codes "--network") line.options ≡ s.network ∷ []
    pub users : values_of (codes "--user") line.options ≡ codes "65534:65534" ∷ []
    pub dropped : values_of (codes "--cap-drop") line.options ≡ codes "ALL" ∷ []
    pub security : values_of (codes "--security-opt") line.options ≡ codes "no-new-privileges" ∷ []
    pub mounts :
        values_of (codes "--mount") line.options
        ≡ (codes "type=bind,src=" ++ (s.srv_dir ++ codes ",dst=/srv,readonly"))
          ∷ (if text_eq s.transport (codes "http")
              then (codes "type=bind,src=" ++ (s.socket_dir ++ codes ",dst=/run/mcpgw")) ∷ []
              else [])
    pub scratch :
        values_of (codes "--tmpfs") line.options
        ≡ codes "/state:rw,nosuid,nodev,exec,uid=65534,gid=65534"
          ∷ codes "/tmp:rw,nosuid,nodev,exec,uid=65534,gid=65534"
          ∷ []
    pub names : values_of (codes "--name") line.options ≡ s.name ∷ []
    pub work_dirs : values_of (codes "--workdir") line.options ≡ codes "/srv" ∷ []
    pub process_limits :
        values_of (codes "--pids-limit") line.options ≡ itoa s.manifest.pids_max ∷ []
    pub cpu_limits :
        values_of (codes "--cpus") line.options ≡ (if text_eq cpus [] then [] else cpus ∷ [])
    pub memory_limits : values_of (codes "--memory") line.options ≡ memory ∷ []
    pub environment : values_of (codes "--env") line.options ≡ container_env s
    pub read_only : mem (codes "--read-only") line.switched ≡ true
    pub same_image : line.image ≡ s.image
    pub same_command :
        line.command
        ≡ (if text_eq s.transport (codes "http") then shell_args else []) ++ s.entrypoint

  skipped :
      (k k' v : Text) (there : Bool) (rest : List (Text × Text))
      → text_eq k' k ≡ false
      → values_of k ((if there then (k', v) ∷ [] else []) ++ rest) ≡ values_of k rest
  skipped k k' v true rest h = rw h refl
  skipped k k' v false rest h = refl

  -- The options behind the working directory.
  abbrev later_options : Bool → List Text → List (Text × Text)
  later_options over_http env =
      (if over_http then (codes "--mount", socket_mount s) ∷ [] else [])
      ++ ((codes "--memory", memory) ∷ (after_limits (env_line over_http env)).options)

  limited_values :
      (k : Text) (over_http : Bool) (env : List Text)
      → text_eq (codes "--cpus") k ≡ false
      → text_eq (codes "--pids-limit") k ≡ false
      → values_of k (after_limits (env_line over_http env)).options
        ≡ values_of k (map env_option env)
  limited_values k over_http env no_cpus no_pids = by_test (text_eq cpus [])
    where
      by_test :
          (no_limit : Bool)
          → values_of k (
              (if no_limit then [] else (codes "--cpus", cpus) ∷ [])
              ++ ((codes "--pids-limit", itoa s.manifest.pids_max) ∷ map env_option env))
            ≡ values_of k (map env_option env)
      by_test true = rw no_pids refl
      by_test false = rw (no_cpus, no_pids) refl

  later_values :
      (k : Text) (over_http : Bool) (env : List Text)
      → text_eq (codes "--mount") k ≡ false
      → text_eq (codes "--cpus") k ≡ false
      → text_eq (codes "--pids-limit") k ≡ false
      → values_of k (later_options over_http env)
        ≡ values_of k ((codes "--memory", memory) ∷ map env_option env)
  later_values k over_http env no_mount no_cpus no_pids =
      skipped k (codes "--mount") (socket_mount s) over_http _ no_mount
      ∙ rw (limited_values k over_http env no_cpus no_pids) refl

  -- An option that is not among the later ones.
  not_later :
      (k : Text) (over_http : Bool) (env : List Text)
      → text_eq (codes "--mount") k ≡ false
      → text_eq (codes "--cpus") k ≡ false
      → text_eq (codes "--pids-limit") k ≡ false
      → text_eq (codes "--memory") k ≡ false
      → text_eq (codes "--env") k ≡ false
      → values_of k (later_options over_http env) ≡ []
  not_later k over_http env no_mount no_cpus no_pids no_memory no_env =
      later_values k over_http env no_mount no_cpus no_pids ∙ rw no_memory (other-env k env no_env)

  -- The options of the limits, with the CPUs left out where there is no limit of them.
  abbrev limit_options : Bool → List Text → List (Text × Text)
  limit_options no_limit env =
      (if no_limit then [] else (codes "--cpus", cpus) ∷ [])
      ++ ((codes "--pids-limit", itoa s.manifest.pids_max) ∷ map env_option env)

  process_limit :
      (no_limit : Bool) (env : List Text)
      → values_of (codes "--pids-limit") (limit_options no_limit env)
        ≡ itoa s.manifest.pids_max ∷ []
  unfolding text_eq
  process_limit true env =
      ap (λ l. itoa s.manifest.pids_max ∷ l) (other-env (codes "--pids-limit") env refl)
  process_limit false env =
      ap (λ l. itoa s.manifest.pids_max ∷ l) (other-env (codes "--pids-limit") env refl)

  cpu_limit :
      (no_limit : Bool) (env : List Text)
      → values_of (codes "--cpus") (limit_options no_limit env)
        ≡ (if no_limit then [] else cpus ∷ [])
  unfolding text_eq
  cpu_limit true env = other-env (codes "--cpus") env refl
  cpu_limit false env = ap (λ l. cpus ∷ l) (other-env (codes "--cpus") env refl)

  in_front-Confines :
      (over_stdio over_http : Bool)
      → text_eq s.transport (codes "http") ≡ over_http
      → Confines (
          in_front s memory over_stdio over_http
            (after_limits (env_line over_http (container_env s))))
  unfolding text_eq mem
  in_front-Confines over_stdio over_http e =
      let env = container_env s in
      record {
        networks =
            ap (λ l. s.network ∷ l)
              (not_later (codes "--network") over_http env refl refl refl refl refl);
        users =
            ap (λ l. codes "65534:65534" ∷ l)
              (not_later (codes "--user") over_http env refl refl refl refl refl);
        dropped =
            ap (λ l. codes "ALL" ∷ l)
              (not_later (codes "--cap-drop") over_http env refl refl refl refl refl);
        security =
            ap (λ l. codes "no-new-privileges" ∷ l)
              (not_later (codes "--security-opt") over_http env refl refl refl refl refl);
        mounts = ap (λ l. srv_mount s ∷ l) (mounted over_http e);
        scratch =
            ap
              (λ l.
                codes "/state:rw,nosuid,nodev,exec,uid=65534,gid=65534"
                ∷ codes "/tmp:rw,nosuid,nodev,exec,uid=65534,gid=65534"
                ∷ l)
              (not_later (codes "--tmpfs") over_http env refl refl refl refl refl);
        names =
            ap (λ l. s.name ∷ l)
              (not_later (codes "--name") over_http env refl refl refl refl refl);
        work_dirs =
            ap (λ l. codes "/srv" ∷ l)
              (not_later (codes "--workdir") over_http env refl refl refl refl refl);
        process_limits =
            skipped (codes "--pids-limit") (codes "--mount") (socket_mount s) over_http _ refl
            ∙ process_limit (text_eq cpus []) env;
        cpu_limits =
            skipped (codes "--cpus") (codes "--mount") (socket_mount s) over_http _ refl
            ∙ cpu_limit (text_eq cpus []) env;
        memory_limits =
            later_values (codes "--memory") over_http env refl refl refl
            ∙ ap (λ l. memory ∷ l) (other-env (codes "--memory") env refl);
        environment = later_values (codes "--env") over_http env refl refl refl ∙ values-env env;
        read_only = switched_on over_stdio;
        same_image = refl;
        same_command = rw e refl;
      }
    where
      mounted :
          (over_http : Bool)
          → text_eq s.transport (codes "http") ≡ over_http
          → values_of (codes "--mount") (later_options over_http (container_env s))
            ≡ (if text_eq s.transport (codes "http") then socket_mount s ∷ [] else [])
      mounted true e = rw e (
          ap (λ l. socket_mount s ∷ l)
            (limited_values (codes "--mount") true (container_env s) refl refl
              ∙ other-env (codes "--mount") (container_env s) refl))
      mounted false e = rw e (
          limited_values (codes "--mount") false (container_env s) refl refl
          ∙ other-env (codes "--mount") (container_env s) refl)

      switched_on :
          (over_stdio : Bool)
          → mem (codes "--read-only") (
              codes "--rm"
              ∷ codes "--init"
              ∷ ((if over_stdio then codes "-i" ∷ [] else []) ++ (codes "--read-only" ∷ [])))
            ≡ true
      switched_on true = refl
      switched_on false = refl

  -- For an image that is not spelled like an option, what docker run reads in ContainerArgs'
  -- command line is one name, network, user, dropped capability set, security option, working
  -- directory, memory limit and limit of processes, namely the run's name and network, 65534:65534,
  -- ALL, no-new-privileges, /srv and the manifest's limits; the manifest's limit of the CPUs if it
  -- has one; no bind mounts but /srv, read-only, and, over HTTP, the socket's directory; no tmpfs
  -- but /state and /tmp with nosuid and nodev for 65534; the environment of containerEnv; a read-
  -- only root; that image; and the package's entrypoint, over HTTP behind the shell's arguments.
  pub container_args-Confines : Confines (read_line (after_run (container_args format_share s)))
  unfolding container_args
  container_args-Confines =
      let over_stdio = text_eq s.transport (codes "stdio") in
      let over_http = text_eq s.transport (codes "http") in
      subst Confines (sym (read_line-argv over_stdio over_http (container_env s)))
        (in_front-Confines over_stdio over_http refl)
