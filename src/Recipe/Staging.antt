-- ===== src/Recipe/Staging.antt =====
-- The paths that a recipe may stage.
use mcp_library.Common.{
  ℕ, zero, suc, ◌<◌, ◌≡◌, refl, sym, ◌∙◌, subst, ◌↔◌, inl, inr, Bool, true, false, ◌&&◌, ◌||◌, not,
  List, [], ◌∷◌, Option, none, some, All, arith, length, length-append,
}
use mathlib.Core.List.{reverse, reverse-cons}
use mcp_library.Common.Tests.{Bool-cases}
use mcp_library.Common.Text.{Text, codes, text_eq, has_prefix, contains, split, join}
use mcp_library.Pack.Refusals.{prefix-rooted, false_of_not_true}
use mcp_library.Paths.{slash, Walked, clean, render, relative, is_rooted, is_outside}
use mcp_library.Paths.Clean.{
  IsName, walked, walked-IsName, clean-walked, outside-render, All-reverse,
}
use mcp_library.Paths.Climb.{depth_after, from-Agrees, Agrees}
use mcp_library.Recipe.{inside_path}

name-not-dot :
    (n : Text) (ns : List Text) → IsName n → text_eq (join slash (n ∷ ns)) (codes ".") ≡ false
unfolding join text_eq
name-not-dot [] ns h = absurd (cc (h.0))
name-not-dot (a ∷ []) [] h = ground (arith, h.0)
name-not-dot (a ∷ []) (m ∷ ns) h = ground arith
name-not-dot (a ∷ b ∷ n) [] h = ground arith
name-not-dot (a ∷ b ∷ n) (m ∷ ns) h = ground arith

names-not-dot :
    (ns : List Text) → All IsName ns → 0 < length ns → text_eq (relative ns) (codes ".") ≡ false
names-not-dot [] h lt = absurd (omega arith)
names-not-dot (n ∷ ns) h lt = name-not-dot n ns (h.0)

length-reverse : {A : Type 0} (xs : List A) → length (reverse xs) ≡ length xs
length-reverse [] = refl
length-reverse (x ∷ xs) =
    rw (reverse-cons, length-append (reverse xs) (x ∷ [])) (omega (arith, length-reverse xs))

stays : Text → Bool
stays c = not (text_eq c (codes ".")) && not (is_outside c)

stays-dot : (c : Text) → c ≡ codes "." → stays c ≡ false
unfolding stays text_eq
stays-dot c e = rw e refl

stays-outside : (c : Text) → is_outside c ≡ true → stays c ≡ false
unfolding stays
stays-outside c out = rw out (and_false (not (text_eq c (codes "."))))
  where
    and_false : (b : Bool) → (b && false) ≡ false
    and_false true = refl
    and_false false = refl

render_zero : (w : Walked) → w.ups ≡ 0 → render false w ≡ relative (reverse w.names)
render_zero w e = rw e refl

no_names : (ns : List Text) → length ns ≡ 0 → relative (reverse ns) ≡ codes "."
no_names [] e = refl
no_names (n ∷ ns) e = absurd (omega arith)

stays_at :
    (w : Walked) (o : Option ℕ)
    → All IsName w.names
    → Agrees w o
    → (stays (render false w) ≡ true) ↔ ((d : ℕ) × (o ≡ some (suc d)))
stays_at w none names out = (
  λ h. absurd (cc (h, stays-outside (render false w) ((outside-render w names).1 out))),
  λ (d, e). absurd (cc e),
)
stays_at w (some zero) names at_top = (
  λ h.
      absurd (
        cc
          (h, stays-dot (render false w) (render_zero w (at_top.0) ∙ no_names w.names (at_top.1)))),
  λ (d, e). absurd (cc e),
)
stays_at w (some (suc d)) names inside = (λ h. (d, refl), λ e. here)
  where
    not_dot : text_eq (render false w) (codes ".") ≡ false
    not_dot = rw (render_zero w (inside.0)) (
        names-not-dot (reverse w.names) (All-reverse IsName w.names names)
          (omega (arith, length-reverse w.names, inside.1)))

    not_out : is_outside (render false w) ≡ false
    not_out =
        false_of_not_true (is_outside (render false w))
          (λ out. absurd (omega (arith, inside.0, (outside-render w names).0 out)))

    here : stays (render false w) ≡ true
    here = unfold stays in rw (not_dot, not_out) refl

-- insidePath accepts a path exactly when it is relative, has no backslash, and its segments, read
-- in order, never step above the directory that it starts from and end strictly below it.
pub inside_path_iff :
    (p : Text)
    → (inside_path p ≡ true) ↔ (
        (is_rooted p ≡ false)
        × (contains (codes "\\") p ≡ false)
        × (d : ℕ) × (depth_after 0 (split slash p) ≡ some (suc d)))
unfolding inside_path
inside_path_iff p = elim (Bool-cases (has_prefix (codes "/") p || contains (codes "\\") p)) [
  | inl refused ↦ (
    λ h. absurd (cc (rw (refused, inside_path) at h)),
    λ (rooted, slashes, d, e). absurd (cc (refused, both (prefix-rooted p ∙ rooted) slashes)),
  )
  | inr allowed ↦ after allowed (or_none _ _ allowed)
]
  where
    both : {a b : Bool} → a ≡ false → b ≡ false → (a || b) ≡ false
    both e e' = rw (e, e') refl

    or_none : (a b : Bool) → (a || b) ≡ false → (a ≡ false) × (b ≡ false)
    or_none true b h = absurd (cc h)
    or_none false b h = (refl, h)

    after :
        (has_prefix (codes "/") p || contains (codes "\\") p) ≡ false
        → (has_prefix (codes "/") p ≡ false) × (contains (codes "\\") p ≡ false)
        → (inside_path p ≡ true) ↔ (
            (is_rooted p ≡ false)
            × (contains (codes "\\") p ≡ false)
            × (d : ℕ) × (depth_after 0 (split slash p) ≡ some (suc d)))
    after allowed (prefix, slashes) =
        let rooted = sym (prefix-rooted p) ∙ prefix in
        let at_walked =
          stays_at (walked p) (depth_after 0 (split slash p)) (walked-IsName p)
            (from-Agrees [] (split slash p)) in
        (
          λ h.
              let (d, e) =
                at_walked.0 (subst (λ c. stays c ≡ true) (clean-walked p rooted) (opened h)) in
              (rooted, slashes, d, e),
          λ (r, s, d, e).
              closed
                (subst (λ c. stays c ≡ true) (sym (clean-walked p rooted)) (at_walked.1 (d, e))),
        )
      where
        opened : inside_path p ≡ true → stays (clean p) ≡ true
        opened h = unfold stays in rw (allowed, inside_path) at h

        closed : stays (clean p) ≡ true → inside_path p ≡ true
        closed h = rw (allowed, inside_path) (unfold stays in h)
