-- ===== src/Container/RunLine.antt =====
-- How docker run reads a command line: switches, options with a value, the image, the command.
use mcp_library.Common.{◌≡◌, refl, true, false, List, [], ◌∷◌, ◌++◌, map, if◌then◌else◌}
use mcp_library.Common.Text.{Text, codes, text_eq, mem}
use mcp_library.Container.Argv.{env_args}

abbrev switches : List Text
switches = codes "--rm" ∷ codes "--init" ∷ codes "-i" ∷ codes "-d" ∷ codes "--read-only" ∷ []

abbrev valued : List Text
valued =
    codes "--name"
    ∷ codes "--network"
    ∷ codes "--user"
    ∷ codes "--cap-drop"
    ∷ codes "--security-opt"
    ∷ codes "--tmpfs"
    ∷ codes "--mount"
    ∷ codes "--workdir"
    ∷ codes "--memory"
    ∷ codes "--cpus"
    ∷ codes "--pids-limit"
    ∷ codes "--env"
    ∷ []

-- The arguments of docker run: switches, options with their values, an image and a command. An
-- option that is not known is not read.
pub record RunLine : Type 0 where
  pub switched : List Text
  pub options : List (Text × Text)
  pub image : Text
  pub command : List Text

abbrev pub read_line : List Text → RunLine
read_line [] = record { switched = []; options = []; image = []; command = [] }
read_line (x ∷ []) = record { switched = []; options = []; image = x; command = [] }
read_line (x ∷ v ∷ rest) = elim (mem x switches) [
  | true ↦ let later = read_line (v ∷ rest) in record later { switched = x ∷ later.switched }
  | false ↦ elim (mem x valued) [
    | true ↦ let later = read_line rest in record later { options = (x, v) ∷ later.options }
    | false ↦ record { switched = []; options = []; image = x; command = v ∷ rest }
  ]
]

-- The arguments behind `run`.
abbrev pub after_run : List Text → List Text
after_run [] = []
after_run (run ∷ args) = args

-- The values that an option is given.
abbrev pub values_of : Text → List (Text × Text) → List Text
values_of k [] = []
values_of k ((k', v) ∷ options) =
    let rest = values_of k options in if text_eq k' k then v ∷ rest else rest

abbrev pub env_option : Text → Text × Text
env_option e = (codes "--env", e)

-- An image is not spelled like an option.
abbrev pub IsImage : Text → Type 0
IsImage image = (mem image switches ≡ false) × (mem image valued ≡ false)

read_line-image :
    (image : Text) (command : List Text)
    → IsImage image
    → read_line (image ∷ command)
      ≡ record { switched = []; options = []; image = image; command = command }
read_line-image image [] h = refl
read_line-image image (c ∷ command) h = rw (h.0, h.1, read_line) refl

pub read_line-env :
    (env : List Text) (image : Text) (command : List Text)
    → IsImage image
    → read_line (env_args env ++ (image ∷ command))
      ≡ record { switched = []; options = map env_option env; image = image; command = command }
unfolding mem text_eq
read_line-env [] image command h = read_line-image image command h
read_line-env (e ∷ env) image command h = rw (read_line-env env image command h) refl
