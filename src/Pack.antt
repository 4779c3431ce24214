-- ===== src/Pack.antt =====
-- internal/pack/refuse.go and the header that internal/pack/tar.go writes for one entry. A mode's
-- type and special bits are fields of `FileInfo`; `perm` is its nine permission bits.
pub mod Escapes
pub mod Refusals
pub mod Entries
pub mod Tests
use Prim.Native.Nat.{bit_and}
use mcp_library.Common.{
  ℕ, Bool, true, false, not, ◌||◌, ◌++◌, [], ◌∷◌, Option, none, some, ◌==◌, if◌then◌else◌,
}
use mcp_library.Common.Text.{Text, codes, text_eq, has_prefix, has_suffix, contains}
use mcp_library.Paths.{clean, join_path, dir, is_outside}

pub record FileInfo : Type 0 where
  pub is_dir : Bool
  pub is_symlink : Bool
  pub device : Bool
  pub char_device : Bool
  pub named_pipe : Bool
  pub socket : Bool
  pub irregular : Bool
  pub setuid : Bool
  pub setgid : Bool
  pub sticky : Bool
  pub perm : ℕ
  pub size : ℕ

-- Which of the errors that wrap ErrRefused is returned.
pub data Refusal : Type 0 where
  absolute_path escapes_root special_file special_bits link_absolute link_outside_package : Refusal
  not_packable : Refusal

abbrev pub is_absolute : Text → Bool
is_absolute rel = has_prefix (codes "/") rel || contains (codes "\\") rel

abbrev pub escapes : Text → Bool
escapes rel =
    text_eq rel (codes "..")
    || has_prefix (codes "../") rel
    || contains (codes "/../") rel
    || has_suffix (codes "/..") rel

abbrev pub is_special_file : FileInfo → Bool
is_special_file fi = fi.device || fi.char_device || fi.named_pipe || fi.socket || fi.irregular

abbrev pub has_special_bits : FileInfo → Bool
has_special_bits fi = fi.setuid || fi.setgid || fi.sticky

abbrev pub leads_outside : Text → Text → Bool
leads_outside rel link = is_outside (clean (join_path (dir rel) link))

unfoldable pub refuse : Text → FileInfo → Text → Option Refusal
refuse rel fi link =
    if is_absolute rel
    then some absolute_path
    else if escapes rel
    then some escapes_root
    else if is_special_file fi
    then some special_file
    else if has_special_bits fi
    then some special_bits
    else if not fi.is_symlink
    then none
    else if has_prefix (codes "/") link
    then some link_absolute
    else if leads_outside rel link
    then some link_outside_package
    else none

abbrev pub is_regular : FileInfo → Bool
is_regular fi = not (
    fi.is_dir || fi.is_symlink || fi.named_pipe || fi.socket || fi.device || fi.char_device
    || fi.irregular)

abbrev pub is_executable : FileInfo → Bool
is_executable fi = not (bit_and fi.perm 0o111 == 0)

unfoldable pub normalised_mode : FileInfo → ℕ
normalised_mode fi =
    if fi.is_dir
    then 0o755
    else if fi.is_symlink
    then 0o777
    else if is_executable fi
    then 0o755
    else 0o644

pub data Typeflag : Type 0 where
  type_dir type_symlink type_reg : Typeflag

-- `tar.Header`; the owner's fields are left at their zero values.
pub record Header : Type 0 where
  pub name : Text
  pub link_name : Text
  pub mode : ℕ
  pub mod_time : ℕ
  pub typeflag : Typeflag
  pub size : ℕ

pub data Entry : Type 0 where
  refused : Refusal → Entry
  header : Header → Entry

abbrev base_header : Text → FileInfo → Text → Typeflag → ℕ → Header
base_header name fi link flag size = record {
  name = name;
  link_name = link;
  mode = normalised_mode fi;
  mod_time = 0;
  typeflag = flag;
  size = size;
}

abbrev header_of : Text → FileInfo → Text → Entry
header_of rel fi link =
    if fi.is_dir
    then header (base_header (rel ++ codes "/") fi link type_dir 0)
    else if fi.is_symlink
    then header (base_header rel fi link type_symlink 0)
    else if is_regular fi
    then header (base_header rel fi link type_reg fi.size)
    else refused not_packable

abbrev unless_refused : Option Refusal → Entry → Entry
unless_refused (some r) e = refused r
unless_refused none e = e

-- `writeEntry` up to the header that it writes; `target` is what Readlink returns.
unfoldable pub write_entry : Text → FileInfo → Text → Entry
unfolding refuse normalised_mode
write_entry rel fi target =
    let link = if fi.is_symlink then target else [] in
    unless_refused (refuse rel fi link) (header_of rel fi link)
