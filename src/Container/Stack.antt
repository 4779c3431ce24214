-- ===== src/Container/Stack.antt =====
-- internal/smoke/container.go: Stack, the network and the containers of a run: Up, Start and Down.
-- `live` is what docker has; what docker answers and what its commands leave behind are inputs.
use mcp_library.Common.{
  Bool, true, false, ◌&&◌, ◌||◌, not, List, [], ◌∷◌, ◌++◌, filter_by, if◌then◌else◌,
}
use mcp_library.Common.Text.{Text, codes, text_eq}

pub data Resource : Type 0 where
  net : Text → Resource
  box : Text → Resource

abbrev pub same_resource : Resource → Resource → Bool
same_resource (net a) (net b) = text_eq a b
same_resource (box a) (box b) = text_eq a b
same_resource _ _ = false

pub record Stack : Type 0 where
  pub network : Text
  pub net_made : Bool
  pub proxy_made : Bool
  pub pkgs : List Text
  pub live : List Resource

abbrev pub new_stack : Stack
new_stack = record { network = []; net_made = false; proxy_made = false; pkgs = []; live = [] }

abbrev pub proxy_name : Text → Text
proxy_name network = network ++ codes "-proxy"

-- Whether the create succeeded, whether there is a network behind it, which may be so when it fails
-- too, and whether there is a proxy container behind its docker run.
unfoldable pub up :
    Text → (created : Bool) → (net_left : Bool) → (proxy_left : Bool) → Stack → Stack
up network created net_left proxy_left s =
    if created
    then record {
      network = network;
      net_made = true;
      proxy_made = true;
      pkgs = s.pkgs;
      live =
          (if proxy_left
            then box (proxy_name network) ∷ net network ∷ s.live
            else net network ∷ s.live);
    }
    else record s { network = network; live = if net_left then net network ∷ s.live else s.live }

-- A container that is started, whether or not there is one behind its docker run.
unfoldable pub start : Text → (left : Bool) → Stack → Stack
start name left s = record s {
  pkgs = s.pkgs ++ (name ∷ []);
  live = if left then box name ∷ s.live else s.live;
}

unfoldable pub remove : Resource → List Resource → List Resource
remove r = filter_by (λ x. not (same_resource x r))

-- What docker answers to a removal, and whether the resource is there behind it: it is removed; the
-- error says "No such" or "not found", as one does where docker itself is not found; another error.
pub data Removal : Type 0 where
  removed : Removal
  says_missing failed : (stays : Bool) → Removal

-- `rm`: whether the thing counts as gone.
abbrev pub counts_gone : Removal → Bool
counts_gone removed = true
counts_gone (says_missing stays) = true
counts_gone (failed stays) = false

abbrev pub stays_behind : Removal → Bool
stays_behind removed = false
stays_behind (says_missing stays) = stays
stays_behind (failed stays) = stays

-- It counts as gone, and is not.
abbrev pub is_mistaken : Removal → Bool
is_mistaken answer = counts_gone answer && stays_behind answer

-- The names that are left, what is live, and what could not be removed.
pub record Downed : Type 0 where
  pub left : List Text
  pub live : List Resource
  pub errors : List Resource

module _ (answers : Resource → Removal) where
  abbrev pub behind_rm : Resource → List Resource → List Resource
  behind_rm r live = if stays_behind (answers r) then live else remove r live

  unfoldable pub down_pkgs : List Text → List Resource → Downed
  unfolding remove
  down_pkgs [] live = record { left = []; live = live; errors = [] }
  down_pkgs (n ∷ ns) live =
      let later = down_pkgs ns (behind_rm (box n) live) in
      if counts_gone (answers (box n))
      then later
      else record { left = n ∷ later.left; live = later.live; errors = box n ∷ later.errors }

  -- What was made is removed: whether it still counts as made.
  unfoldable pub down_made : Resource → Bool → List Resource → Bool × List Resource × List Resource
  unfolding remove
  down_made r made live =
      if made
      then (if counts_gone (answers r)
          then (false, behind_rm r live, [])
          else (true, behind_rm r live, r ∷ []))
      else (false, live, [])

  unfoldable pub down : Stack → Stack × List Resource
  unfolding down_pkgs down_made
  down s =
      let boxes = down_pkgs s.pkgs s.live in
      let proxy = down_made (box (proxy_name s.network)) s.proxy_made boxes.live in
      let network = down_made (net s.network) s.net_made proxy.1 in
      (
        record {
          network = s.network;
          net_made = network.0;
          proxy_made = proxy.0;
          pkgs = boxes.left;
          live = network.1;
        },
        boxes.errors ++ (proxy.2 ++ network.2),
      )

-- The network that is left behind a create that fails.
abbrev pub left_by_create : Text → Bool → Bool → Resource → Bool
left_by_create network created net_left r =
    not created && (net_left && same_resource r (net network))

-- The life of a stack: Up once, then packages that start and calls of Down, in any order; with what
-- the stack lost sight of, behind a create that failed or a removal that only seemed to be done.
pub data Life : (Resource → Bool) → Stack → Type 0 where
  brought_up :
      (network : Text) (created net_left proxy_left : Bool)
      → Life
          (left_by_create network created net_left)
          (up network created net_left proxy_left new_stack)
  started :
      {lost : Resource → Bool} {s : Stack}
      → Life lost s
      → (name : Text) (left : Bool) → Life lost (start name left s)
  taken_down :
      {lost : Resource → Bool} {s : Stack}
      → Life lost s
      → (answers : Resource → Removal)
      → Life (λ r. lost r || is_mistaken (answers r)) ((down answers s).0)
