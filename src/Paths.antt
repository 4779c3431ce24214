-- ===== src/Paths.antt =====
-- What the program uses of Go's package path: Clean, Join and Dir on slash-separated paths.
-- `Clean` reads the segments in order and keeps the names it has kept so far, last one first, and
-- how many ".." stand in front of them.
pub mod Climb
pub mod Clean
use mcp_library.Common.{
  ℕ, zero, suc, Bool, true, false, ◌||◌, List, [], ◌∷◌, ◌++◌, Option, none, some, ◌==◌,
  if◌then◌else◌,
}
use mathlib.Core.List.{reverse}
use mcp_library.Common.Text.{Text, codes, text_eq, has_prefix, split, join}

abbrev pub slash : ℕ
slash = b'/'

abbrev pub dot_dot : Text
dot_dot = codes ".."

pub record Walked : Type 0 where
  pub ups : ℕ
  pub names : List Text

abbrev pub start : Walked
start = record { ups = 0; names = [] }

-- ".." takes the last name away; where there is none it is kept, but not at the root directory.
abbrev pub back : Bool → ℕ → List Text → Walked
back rooted ups (n ∷ names) = record { ups = ups; names = names }
back true ups [] = record { ups = ups; names = [] }
back false ups [] = record { ups = suc ups; names = [] }

abbrev pub is_skipped : Text → Bool
is_skipped seg = text_eq seg [] || text_eq seg (codes ".")

unfoldable pub clean_step : Bool → Walked → Text → Walked
clean_step rooted w seg =
    if is_skipped seg
    then w
    else if text_eq seg dot_dot
    then back rooted w.ups w.names
    else record { ups = w.ups; names = seg ∷ w.names }

unfoldable pub clean_from : Bool → Walked → List Text → Walked
unfolding clean_step
clean_from rooted w [] = w
clean_from rooted w (seg ∷ segs) = clean_from rooted (clean_step rooted w seg) segs

abbrev pub dot_dots : ℕ → List Text
dot_dots zero = []
dot_dots (suc n) = dot_dot ∷ dot_dots n

abbrev pub segments : Walked → List Text
segments w = dot_dots w.ups ++ reverse w.names

abbrev pub relative : List Text → Text
relative [] = codes "."
relative (s ∷ segs) = join slash (s ∷ segs)

abbrev pub render : Bool → Walked → Text
render true w = slash ∷ join slash (segments w)
render false w = relative (segments w)

abbrev pub is_rooted : Text → Bool
is_rooted [] = false
is_rooted (c ∷ p) = c == slash

-- `path.Clean`.
unfoldable pub clean : Text → Text
unfolding clean_from join split text_eq
clean p = render (is_rooted p) (clean_from (is_rooted p) start (split slash p))

-- The text up to and with its last slash: the directory that `path.Split` returns.
unfoldable pub up_to_slash : Text → Text
up_to_slash [] = []
up_to_slash (c ∷ p) = elim (up_to_slash p) [
  | [] ↦ if c == slash then c ∷ [] else []
  | d ∷ q ↦ c ∷ d ∷ q
]

-- `path.Dir`.
unfoldable pub dir : Text → Text
unfolding clean up_to_slash
dir p = clean (up_to_slash p)

-- `path.Join(a, b)`: empty elements are left out.
unfoldable pub join_path : Text → Text → Text
unfolding clean
join_path [] [] = []
join_path [] (c ∷ b) = clean (c ∷ b)
join_path (c ∷ a) [] = clean (c ∷ a)
join_path (c ∷ a) (d ∷ b) = clean ((c ∷ a) ++ slash ∷ d ∷ b)

-- Out of the directory that a relative path starts from.
unfoldable pub is_outside : Text → Bool
unfolding text_eq has_prefix
is_outside target = text_eq target dot_dot || has_prefix (codes "../") target

abbrev drop_slashes : Text → Text
drop_slashes [] = []
drop_slashes (c ∷ p) = let rest = drop_slashes p in if c == slash then rest else c ∷ p

abbrev last_segment : List Text → Text
last_segment [] = []
last_segment (s ∷ []) = s
last_segment (s ∷ t ∷ segs) = last_segment (t ∷ segs)

abbrev base_of : Text → Text
base_of [] = slash ∷ []
base_of (c ∷ p) = last_segment (split slash (c ∷ p))

-- `path.Base`: the last element, without the slashes behind it.
unfoldable pub base : Text → Text
unfolding split
base [] = codes "."
base (c ∷ p) = base_of (reverse (drop_slashes (reverse (c ∷ p))))
