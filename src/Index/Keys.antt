-- ===== src/Index/Keys.antt =====
-- The keys of the index: names and versions by their text, blobs by their os and arch.
use mcp_library.Common.{◌≡◌, refl, ap, ◌↔◌, Bool, true, ◌&&◌}
use mcp_library.Common.Tests.{&&_left, &&_right}
use mcp_library.Common.Keyed.{KeyEq}
use mcp_library.Common.Text.{Text, text_eq, text_eq→eq, text_eq_refl, text_eq_iff}

abbrev pub name_eq : KeyEq Text
name_eq = record { test = text_eq; test_iff = text_eq_iff }

abbrev same_target : Text × Text → Text × Text → Bool
same_target (os, arch) (os', arch') = text_eq os os' && text_eq arch arch'

pub same_target_iff : (a b : Text × Text) → (same_target a b ≡ true) ↔ (a ≡ b)
same_target_iff (os, arch) (os', arch') = (
  λ h.
      let one = text_eq→eq os os' (&&_left (text_eq os os') (text_eq arch arch') h) in
      let two = text_eq→eq arch arch' (&&_right (text_eq os os') (text_eq arch arch') h) in
      cc (one, two),
  λ e. rw (ap (λ p. p.0) e, ap (λ p. p.1) e, text_eq_refl os', text_eq_refl arch') refl,
)

abbrev pub target_eq : KeyEq (Text × Text)
target_eq = record { test = same_target; test_iff = same_target_iff }
