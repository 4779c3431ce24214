-- ===== src/Recipe/Steps.antt =====
-- Which steps install with pip, and what holds of a step that is accepted.
use mcp_library.Common.{
  ◌≡◌, refl, sym, ap, subst, ◌⊎◌, ◌↔◌, inl, inr, Bool, true, false, ◌&&◌, ◌||◌, not, List, [], ◌∷◌,
  ◌++◌, Option, none, some, All, any, arith, if◌then◌else◌,
}
use mcp_library.Common.Tests.{&&_left, &&_right}
use mcp_library.Common.Text.{Text, codes, text_eq, text_eq→eq, text_eq_refl, contains, mem}
use mcp_library.Paths.{base}
use mcp_library.Recipe.{
  Reason, is_pip, starts_with, is_pip_install, require_hashes, step_needs_network, shell_chars,
  has_shell_operator, second, is_shell_string, is_npm_resolving, is_yarn_resolving,
  is_pnpm_resolving, resolves_at_build_time,
}

abbrev install : Text
install = codes "install"

-- Some argument names pip with `install` behind it, or `-m pip install` stands in the line.
abbrev pub PipInstall : List Text → Type 0
PipInstall argv =
    ((xs : List Text) × (ys : List Text) × (a : Text) × (is_pip a ≡ true)
      × (argv ≡ xs ++ (a ∷ install ∷ ys)))
    ⊎ ((xs : List Text) × (ys : List Text) × (argv
          ≡ xs ++ (codes "-m" ∷ codes "pip" ∷ install ∷ ys)))

starts_with_inv :
    (ws argv : List Text) → starts_with ws argv ≡ true → (ys : List Text) × (argv ≡ ws ++ ys)
starts_with_inv [] argv h = (argv, refl)
starts_with_inv (w ∷ ws) [] h = absurd (cc h)
starts_with_inv (w ∷ ws) (a ∷ argv) h =
    let (ys, e) = starts_with_inv ws argv (&&_right (text_eq a w) _ h) in
    (ys, cc (e, text_eq→eq a w (&&_left (text_eq a w) _ h)))

starts_with-append : (ws ys : List Text) → starts_with ws (ws ++ ys) ≡ true
starts_with-append [] ys = refl
starts_with-append (w ∷ ws) ys = rw (text_eq_refl w) (starts_with-append ws ys)

PipInstall-behind : (b : Text) (argv : List Text) → PipInstall argv → PipInstall (b ∷ argv)
PipInstall-behind b argv (inl (xs, ys, a, pip, e)) = inl (b ∷ xs, ys, a, pip, ap (λ l. b ∷ l) e)
PipInstall-behind b argv (inr (xs, ys, e)) = inr (b ∷ xs, ys, ap (λ l. b ∷ l) e)

or_cases : (a b c : Bool) → (a || b || c) ≡ true → (a ≡ true) ⊎ ((b ≡ true) ⊎ (c ≡ true))
or_cases true b c h = inl refl
or_cases false true c h = inr (inl refl)
or_cases false false c h = inr (inr h)

PipInstall-of : (argv : List Text) → is_pip_install argv ≡ true → PipInstall argv
unfolding is_pip_install
PipInstall-of [] h = absurd (cc h)
PipInstall-of (a ∷ argv) h = split_tests (PipInstall-of argv) (or_cases _ _ _ h)
  where
    split_tests :
        (is_pip_install argv ≡ true → PipInstall argv)
        → ((is_pip a && starts_with (install ∷ []) argv) ≡ true)
          ⊎ (((text_eq a (codes "-m") && starts_with (codes "pip" ∷ install ∷ []) argv) ≡ true)
              ⊎ (is_pip_install argv ≡ true))
        → PipInstall (a ∷ argv)
    split_tests ih (inl t) =
        let (ys, e) = starts_with_inv (install ∷ []) argv (&&_right (is_pip a) _ t) in
        inl ([], ys, a, &&_left (is_pip a) _ t, ap (λ l. a ∷ l) e)
    split_tests ih (inr (inl t)) =
        let (ys, e) =
          starts_with_inv (codes "pip" ∷ install ∷ []) argv
            (&&_right (text_eq a (codes "-m")) _ t) in
        inr ([], ys, cc (e, text_eq→eq a (codes "-m") (&&_left (text_eq a (codes "-m")) _ t)))
    split_tests ih (inr (inr t)) = PipInstall-behind a argv (ih t)

pip_install_behind :
    (x : Text) (argv : List Text) → is_pip_install argv ≡ true → is_pip_install (x ∷ argv) ≡ true
unfolding is_pip_install
pip_install_behind x argv h =
    last_true (is_pip x && starts_with (install ∷ []) argv)
      (text_eq x (codes "-m") && starts_with (codes "pip" ∷ install ∷ []) argv)
      (is_pip_install argv) h
  where
    last_true : (b c d : Bool) → d ≡ true → (b || c || d) ≡ true
    last_true b c d e = ground arith

pip_at :
    (xs ys : List Text) (a : Text)
    → is_pip a ≡ true
    → is_pip_install (xs ++ (a ∷ install ∷ ys)) ≡ true
unfolding is_pip_install text_eq
pip_at [] ys a h = rw h refl
pip_at (x ∷ xs) ys a h = pip_install_behind x (xs ++ (a ∷ install ∷ ys)) (pip_at xs ys a h)

module_at :
    (xs ys : List Text) → is_pip_install (xs ++ (codes "-m" ∷ codes "pip" ∷ install ∷ ys)) ≡ true
unfolding is_pip_install text_eq
module_at [] ys = middle_true (is_pip (codes "-m") && false) _
  where
    middle_true : (b d : Bool) → (b || true || d) ≡ true
    middle_true b d = ground arith
module_at (x ∷ xs) ys =
    pip_install_behind x (xs ++ (codes "-m" ∷ codes "pip" ∷ install ∷ ys)) (module_at xs ys)

-- isPipInstall holds exactly when some argument names pip with install behind it, or -m pip install
-- stands in the line.
is_pip_install_iff : (argv : List Text) → (is_pip_install argv ≡ true) ↔ PipInstall argv
is_pip_install_iff argv = (PipInstall-of argv, back)
  where
    back : PipInstall argv → is_pip_install argv ≡ true
    back (inl (xs, ys, a, pip, e)) =
        subst (λ l. is_pip_install l ≡ true) (sym e) (pip_at xs ys a pip)
    back (inr (xs, ys, e)) = subst (λ l. is_pip_install l ≡ true) (sym e) (module_at xs ys)

-- No argument carries a shell operator.
abbrev pub IsArgv : List Text → Type 0
IsArgv argv = All (λ a. All (λ c. contains c a ≡ false) shell_chars) argv

or_none : (a b : Bool) → (a || b) ≡ false → (a ≡ false) × (b ≡ false)
or_none true b h = absurd (cc h)
or_none false b h = (refl, h)

any_none : {A : Type 0} (p : A → Bool) (xs : List A) → any p xs ≡ false → All (λ x. p x ≡ false) xs
any_none p [] h = tt
any_none p (x ∷ xs) h =
    let (here, there) = or_none (p x) (any p xs) h in (here, any_none p xs there)

All-none :
    (argv : List Text) → All (λ a. any (λ c. contains c a) shell_chars ≡ false) argv → IsArgv argv
All-none [] h = tt
All-none (a ∷ argv) h = (any_none (λ c. contains c a) shell_chars (h.0), All-none argv (h.1))

-- A test that answers no reason was passed over.
passed_over :
    (test : Bool) (reason : Reason) (rest : Option Reason)
    → (if test then some reason else rest) ≡ none
    → (test ≡ false) × (rest ≡ none)
passed_over true reason rest h = absurd (cc h)
passed_over false reason rest h = (refl, h)

accepted_tests :
    (argv : List Text)
    → resolves_at_build_time argv ≡ none
    → (has_shell_operator argv ≡ false)
      × ((is_pip_install argv && not (mem require_hashes argv)) ≡ false)
unfolding resolves_at_build_time
accepted_tests [] h = absurd (cc h)
accepted_tests (a ∷ args) h =
    let (shell, h1) = passed_over (has_shell_operator (a ∷ args)) _ _ h in
    let (a1, h2) = passed_over (is_shell_string (base a) (a ∷ args)) _ _ h1 in
    let (a2, h3) = passed_over (is_npm_resolving (base a) (second args)) _ _ h2 in
    let (a3, h4) = passed_over (text_eq (base a) (codes "npx")) _ _ h3 in
    let (a4, h5) = passed_over (is_yarn_resolving (base a) (second args)) _ _ h4 in
    let (a5, h6) = passed_over (is_pnpm_resolving (base a) (second args)) _ _ h5 in
    let (pip, h7) =
      passed_over (is_pip_install (a ∷ args) && not (mem require_hashes (a ∷ args))) _ _ h6 in
    (shell, pip)

networked :
    (argv : List Text)
    → is_pip_install argv ≡ true
    → mem require_hashes argv ≡ true
    → step_needs_network argv ≡ true
unfolding step_needs_network is_pip_install
networked [] pip hashes = absurd (cc pip)
networked (a ∷ args) pip hashes = by_tests _ _ (rw (pip, hashes) refl)
  where
    by_tests :
        (npm go : Bool)
        → (is_pip_install (a ∷ args) && mem require_hashes (a ∷ args)) ≡ true
        → (if npm
            then true
            else if go
            then true
            else is_pip_install (a ∷ args) && mem require_hashes (a ∷ args))
          ≡ true
    by_tests true go h = refl
    by_tests false true h = refl
    by_tests false false h = h

-- Where ResolvesAtBuildTime gives no reason against a step, no argument of it carries a shell
-- operator, and if it installs with pip, that is if some argument names pip with install behind it
-- or -m pip install stands in it, then it carries --require-hashes and StepNeedsNetwork holds.
pub accepted_step :
    (argv : List Text)
    → resolves_at_build_time argv ≡ none
    → IsArgv argv
      × (PipInstall argv → (mem require_hashes argv ≡ true) × (step_needs_network argv ≡ true))
accepted_step argv h =
    let (shell, pip) = accepted_tests argv h in
    (
      All-none argv (any_none _ argv (unfold has_shell_operator in shell)),
      λ installs. with_hashes pip ((is_pip_install_iff argv).1 installs),
    )
  where
    with_hashes :
        (is_pip_install argv && not (mem require_hashes argv)) ≡ false
        → is_pip_install argv ≡ true
        → (mem require_hashes argv ≡ true) × (step_needs_network argv ≡ true)
    with_hashes pip installs =
        let hashes = hashed (is_pip_install argv) (mem require_hashes argv) pip installs in
        (hashes, networked argv installs hashes)
      where
        hashed : (a b : Bool) → (a && not b) ≡ false → a ≡ true → b ≡ true
        hashed a b h e = ground arith

mem-append :
    (xs ys : List Text) → mem require_hashes ys ≡ true → mem require_hashes (xs ++ ys) ≡ true
unfolding mem
mem-append [] ys h = h
mem-append (x ∷ xs) ys h = right_true (text_eq x require_hashes) _ (mem-append xs ys h)
  where
    right_true : (a b : Bool) → b ≡ true → (a || b) ≡ true
    right_true a b e = ground arith

-- Whatever the command and its arguments, a line with pip install and then, anywhere behind it,
-- --require-hashes gets the network from StepNeedsNetwork.
any_command_networked :
    (cmd : Text) (args rest : List Text)
    → mem require_hashes rest ≡ true
    → step_needs_network ((cmd ∷ args) ++ (codes "pip" ∷ install ∷ rest)) ≡ true
any_command_networked cmd args rest h =
    networked ((cmd ∷ args) ++ (codes "pip" ∷ install ∷ rest))
      (pip_at (cmd ∷ args) rest (codes "pip") (unfold text_eq in refl))
      (mem-append (cmd ∷ args) (codes "pip" ∷ install ∷ rest) (unfold mem text_eq in h))
