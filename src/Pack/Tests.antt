-- ===== src/Pack/Tests.antt =====
-- Entries of a package tree, and the theorems at them.
use mcp_library.Common.{ℕ, ◌≡◌, ◌↔◌, refl, true, false, [], none, some}
use mcp_library.Common.Text.{Text, codes, split, has_prefix, has_suffix, contains, text_eq, join}
use mcp_library.Pack.{
  FileInfo, refuse, write_entry, header, Header, type_symlink, normalised_mode,
  link_outside_package, escapes_root,
}
use mcp_library.Pack.Entries.{write_entry_iff, IsNormal, HasKind}
use mcp_library.Pack.Refusals.{refuse-none_iff, IsPackable}
use mcp_library.Paths.{clean, clean_from, clean_step, dir, up_to_slash, join_path, is_outside}

abbrev plain : ℕ → FileInfo
plain perm = record {
  is_dir = false;
  is_symlink = false;
  device = false;
  char_device = false;
  named_pipe = false;
  socket = false;
  irregular = false;
  setuid = false;
  setgid = false;
  sticky = false;
  perm = perm;
  size = 7;
}

abbrev symlink : FileInfo
symlink = record (plain 0o777) { is_symlink = true }

abbrev link_name : Text
link_name = codes "bin/tool"

runs : Unit {0}
unfolding refuse write_entry normalised_mode has_prefix has_suffix contains text_eq split join clean
    clean_from clean_step dir up_to_slash join_path is_outside
runs = tt

test_inside : refuse link_name symlink (codes "../lib/tool.js") ≡ none
unfolding runs
test_inside = refl

test_outside : refuse link_name symlink (codes "../lib/../../etc") ≡ some link_outside_package
unfolding runs
test_outside = refl

test_dots : refuse (codes "a/../b") (plain 0o644) [] ≡ some escapes_root
unfolding runs
test_dots = refl

refuse-none_iff_example :
    (refuse link_name symlink (codes "../lib/tool.js") ≡ none)
    ↔ IsPackable link_name symlink (codes "../lib/tool.js")
refuse-none_iff_example = refuse-none_iff link_name symlink (codes "../lib/tool.js")

abbrev link_header : Header
link_header = record {
  name = link_name;
  link_name = codes "../lib/tool.js";
  mode = 0o777;
  mod_time = 0;
  typeflag = type_symlink;
  size = 0;
}

test_write : write_entry link_name symlink (codes "../lib/tool.js") ≡ header link_header
unfolding runs
test_write = refl

write_entry_iff_example :
    (write_entry link_name symlink (codes "../lib/tool.js") ≡ header link_header) ↔ (
      IsPackable link_name symlink (codes "../lib/tool.js")
      × HasKind symlink
      × IsNormal link_name symlink (codes "../lib/tool.js") link_header)
write_entry_iff_example = write_entry_iff link_name symlink (codes "../lib/tool.js") link_header
