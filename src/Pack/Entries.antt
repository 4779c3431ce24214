-- ===== src/Pack/Entries.antt =====
-- The header of an entry is a function of what a package needs, and of nothing else.
use Prim.Native.Nat.{bit_and}
use mcp_library.Common.{
  sym, ◌==◌, ◌∙◌, ◌≢◌, ◌↔◌, inl, inr, true, ℕ, ◌≡◌, ◌⊎◌, refl, ap, Bool, false, [], ◌++◌, Option,
  none, some, arith, if◌then◌else◌,
}
use mcp_library.Common.Tests.{Bool-cases, ==_iff}
use mcp_library.Common.Text.{Text, codes}
use mcp_library.Pack.{
  FileInfo, refuse, is_executable, normalised_mode, Typeflag, type_dir, type_symlink, type_reg,
  Header, Entry, refused, header, base_header, header_of, unless_refused, write_entry, not_packable,
  is_regular, Refusal,
}
use mcp_library.Pack.Refusals.{IsPackable, refuse-none_iff}

-- Replacing a file's permission bits by others that agree with them on whether some executable bit
-- is set changes nothing in what writeEntry writes.
write_entry_perm :
    (rel : Text) (fi : FileInfo) (perm : ℕ) (target : Text)
    → is_executable (record fi { perm = perm }) ≡ is_executable fi
    → write_entry rel (record fi { perm = perm }) target ≡ write_entry rel fi target
unfolding write_entry
write_entry_perm rel fi perm target h = ap entry_at h
  where
    link : Text
    link = if fi.is_symlink then target else []

    header_at : Bool → Text → Typeflag → ℕ → Entry
    header_at executable name flag size = header (record {
      name = name;
      link_name = link;
      mode =
          if fi.is_dir
          then 0o755
          else if fi.is_symlink
          then 0o777
          else if executable
          then 0o755
          else 0o644;
      mod_time = 0;
      typeflag = flag;
      size = size;
    })

    entry_at : Bool → Entry
    entry_at executable = unless_refused (refuse rel fi link) (
        if fi.is_dir
        then header_at executable (rel ++ codes "/") type_dir 0
        else if fi.is_symlink
        then header_at executable rel type_symlink 0
        else if is_regular fi
        then header_at executable rel type_reg fi.size
        else refused not_packable)

-- Some of the bits that let its owner, its group or others execute it is set.
abbrev pub Executable : FileInfo → Type 0
Executable fi = bit_and fi.perm 0o111 ≢ 0

-- A directory, a symlink, or a file that is nothing else.
abbrev pub HasKind : FileInfo → Type 0
HasKind fi = (fi.is_dir ≡ true) ⊎ ((fi.is_symlink ≡ true) ⊎ (is_regular fi ≡ true))

-- The header that stands for the file, with nothing of the machine in it.
pub record IsNormal (rel : Text) (fi : FileInfo) (target : Text) (h : Header) : Type 0 where
  pub epoch : h.mod_time ≡ 0
  pub linked : h.link_name ≡ (if fi.is_symlink then target else [])
  pub directory :
      fi.is_dir ≡ true
      → (h.typeflag ≡ type_dir) × (h.mode ≡ 0o755) × (h.name ≡ rel ++ codes "/") × (h.size ≡ 0)
  pub symlink :
      fi.is_dir ≡ false
      → fi.is_symlink ≡ true
      → (h.typeflag ≡ type_symlink) × (h.mode ≡ 0o777) × (h.name ≡ rel) × (h.size ≡ 0)
  pub regular :
      fi.is_dir ≡ false
      → fi.is_symlink ≡ false
      → (h.typeflag ≡ type_reg)
        × (h.name ≡ rel)
        × (h.size ≡ fi.size)
        × (Executable fi → h.mode ≡ 0o755)
        × (¬ Executable fi → h.mode ≡ 0o644)

unless_refused-header :
    (o : Option Refusal) (e : Entry) (h : Header)
    → unless_refused o e ≡ header h
    → (o ≡ none) × (e ≡ header h)
unless_refused-header (some r) e h eq = absurd (cc)
unless_refused-header none e h eq = (refl, eq)

header_of-HasKind :
    (rel : Text) (fi : FileInfo) (link : Text) (h : Header)
    → header_of rel fi link ≡ header h
    → HasKind fi
header_of-HasKind rel fi link h eq = ground arith

header_of-IsNormal :
    (rel : Text) (fi : FileInfo) (target : Text) (h : Header)
    → header_of rel fi (if fi.is_symlink then target else []) ≡ header h
    → IsNormal rel fi target h
unfolding normalised_mode
header_of-IsNormal rel fi target h eq = ground arith

-- A file of some kind has a header.
header_of-header :
    (rel : Text) (fi : FileInfo) (link : Text)
    → HasKind fi
    → (h : Header) × (header_of rel fi link ≡ header h)
header_of-header rel fi link kind = elim (Bool-cases fi.is_dir) [
  | inl d ↦ (base_header (rel ++ codes "/") fi link type_dir 0, rw d refl)
  | inr d ↦ elim (Bool-cases fi.is_symlink) [
    | inl s ↦ (base_header rel fi link type_symlink 0, rw (d, s) refl)
    | inr s ↦ elim (Bool-cases (is_regular fi)) [
      | inl r ↦ (base_header rel fi link type_reg fi.size, ground arith)
      | inr r ↦ absurd (no_kind d s r kind)
    ]
  ]
]
  where
    no_kind : fi.is_dir ≡ false → fi.is_symlink ≡ false → is_regular fi ≡ false → HasKind fi → ⊥
    no_kind d s r (inl k) = cc (d, k)
    no_kind d s r (inr (inl k)) = cc (s, k)
    no_kind d s r (inr (inr k)) = cc (r, k)

one_header : (h h' : Header) → ◌≡◌ {A = Entry} (header h) (header h') → h ≡ h'
one_header h h' e = cc e

header_ext :
    (h h' : Header)
    → h.name ≡ h'.name
    → h.link_name ≡ h'.link_name
    → h.mode ≡ h'.mode
    → h.mod_time ≡ h'.mod_time
    → h.typeflag ≡ h'.typeflag
    → h.size ≡ h'.size
    → h ≡ h'
header_ext h h' name link mode time flag size = λ i. record {
  name = name i;
  link_name = link i;
  mode = mode i;
  mod_time = time i;
  typeflag = flag i;
  size = size i;
}

-- A file has one header.
same_header :
    (rel : Text) (fi : FileInfo) (target : Text) (h h' : Header)
    → IsNormal rel fi target h
    → IsNormal rel fi target h'
    → h ≡ h'
same_header rel fi target h h' n n' =
    let (name, mode, flag, size) = by_kind in
    header_ext h h' name (n.linked ∙ sym n'.linked) mode (n.epoch ∙ sym n'.epoch) flag size
  where
    by_kind :
        (h.name ≡ h'.name) × (h.mode ≡ h'.mode) × (h.typeflag ≡ h'.typeflag) × (h.size ≡ h'.size)
    by_kind = elim (Bool-cases fi.is_dir) [
      | inl d ↦ let a = n.directory d in let b = n'.directory d in (cc, cc, cc, cc)
      | inr d ↦ elim (Bool-cases fi.is_symlink) [
        | inl s ↦ let a = n.symlink d s in let b = n'.symlink d s in (cc, cc, cc, cc)
        | inr s ↦
            let a = n.regular d s in
            let b = n'.regular d s in
            (
              a.1 ∙ sym b.1,
              elim (Bool-cases (bit_and fi.perm 0o111 == 0)) [
                | inl none_set ↦
                    let no : ¬ Executable fi = λ x. x ((==_iff _ 0).0 none_set) in
                    a.4 no ∙ sym (b.4 no)
                | inr some_set ↦
                    let yes : Executable fi =
                      λ e. cc (some_set, (==_iff (bit_and fi.perm 0o111) 0).1 e) in
                    a.3 yes ∙ sym (b.3 yes)
              ],
              a.0 ∙ sym b.0,
              a.2 ∙ sym b.2,
            )
      ]
    ]

-- writeEntry writes a header exactly when Refuse's rules allow the entry, the file is a directory,
-- a symlink or a regular file, and the header is the one that stands for it: at the epoch, with the
-- link's target for a symlink, and with a directory's name with a slash and 0755, a symlink's 0777,
-- or a file's size and 0755 if some executable bit of it is set and 0644 if none is.
pub write_entry_iff :
    (rel : Text) (fi : FileInfo) (target : Text) (h : Header)
    → (write_entry rel fi target ≡ header h) ↔ (
        IsPackable rel fi (if fi.is_symlink then target else [])
        × HasKind fi
        × IsNormal rel fi target h)
unfolding write_entry
write_entry_iff rel fi target h = (
  λ eq.
      let (accepted, written) = unless_refused-header _ _ h eq in
      (
        (refuse-none_iff rel fi link).0 accepted,
        header_of-HasKind rel fi link h written,
        header_of-IsNormal rel fi target h written,
      ),
  λ (packable, kind, normal).
      let (h', written) = header_of-header rel fi link kind in
      let same : header_of rel fi link ≡ header h =
        written
        ∙ ap (λ x. header x)
            (same_header rel fi target h' h (header_of-IsNormal rel fi target h' written) normal) in
      rw ((refuse-none_iff rel fi link).1 packable, unless_refused) same,
)
  where
    link : Text
    link = if fi.is_symlink then target else []
