-- ===== src/Pack/Refusals.antt =====
-- What internal/pack/refuse.go accepts.
use mcp_library.Common.{
  ℕ, ◌<◌, ◌≡◌, ◌≢◌, ◌↔◌, refl, sym, ap, ◌∙◌, subst, Bool, true, false, not, ◌||◌, List, [], ◌∷◌,
  ◌++◌, Option, none, some, arith, All, inl, inr, ◌==◌, if◌then◌else◌,
}
use mcp_library.Common.Lists.{Any}
use mcp_library.Common.Text.{Text, codes, text_eq, has_prefix, contains, split}
use mcp_library.Common.Split.{split-append}
use mcp_library.Pack.{
  Refusal, absolute_path, escapes_root, special_file, special_bits, link_absolute,
  link_outside_package, FileInfo, refuse, escapes, is_absolute, is_special_file, has_special_bits,
  leads_outside,
}
use mcp_library.Pack.Escapes.{escapes_iff}
use mcp_library.Paths.{
  Walked, start, slash, dot_dot, clean, clean_from, clean_step, join_path, dir, is_outside,
  up_to_slash, is_rooted, render,
}
use mcp_library.Paths.Clean.{
  walked, walked-IsName, clean-walked, clean_idem, from-render, from-append, render-not_rooted,
  render-ne-nil, outside-render,
}
use mcp_library.Paths.Climb.{depth_after, from-Agrees, Agrees}

up_to_slash-not_rooted : (p : Text) → is_rooted p ≡ false → is_rooted (up_to_slash p) ≡ false
unfolding up_to_slash
up_to_slash-not_rooted [] h = refl
up_to_slash-not_rooted (c ∷ p) h = by_rest (up_to_slash p)
  where
    by_rest :
        (q : Text)
        → is_rooted (elim q [ [] ↦ if c == slash then c ∷ [] else [] | d ∷ r ↦ c ∷ d ∷ r ]) ≡ false
    by_rest [] = ground arith
    by_rest (d ∷ r) = h

-- The path that the link leads to, before it is cleaned.
abbrev link_path : Text → Text → Text
link_path d [] = d
link_path d (c ∷ link) = d ++ slash ∷ c ∷ link

join_path-clean : (d link : Text) → d ≢ [] → join_path d link ≡ clean (link_path d link)
unfolding join_path
join_path-clean [] link h = absurd (h refl)
join_path-clean (c ∷ d) [] h = refl
join_path-clean (c ∷ d) (e ∷ link) h = refl

link_path-not_rooted :
    (d link : Text) → d ≢ [] → is_rooted d ≡ false → is_rooted (link_path d link) ≡ false
link_path-not_rooted [] link n h = absurd (n refl)
link_path-not_rooted (c ∷ d) [] n h = h
link_path-not_rooted (c ∷ d) (e ∷ link) n h = h

walked-link_path :
    (d link : Text) → walked (link_path d link) ≡ clean_from false (walked d) (split slash link)
walked-link_path d [] = unfold split clean_from clean_step text_eq in refl
walked-link_path d (c ∷ link) =
    ap (clean_from false start) (split-append slash d (c ∷ link))
    ∙ from-append false start (split slash d) (split slash (c ∷ link))

-- The segments that lead from the package root to the link's target.
abbrev route : Text → Text → List Text
route rel link = split slash (up_to_slash rel) ++ split slash link

dir-render :
    (rel : Text) → is_rooted rel ≡ false → dir rel ≡ render false (walked (up_to_slash rel))
unfolding dir
dir-render rel h = clean-walked (up_to_slash rel) (up_to_slash-not_rooted rel h)

walked-route :
    (rel link : Text)
    → is_rooted rel ≡ false
    → walked (link_path (dir rel) link) ≡ clean_from false start (route rel link)
walked-route rel link h =
    walked-link_path (dir rel) link
    ∙ ap (λ w. clean_from false w (split slash link))
        (ap walked (dir-render rel h)
          ∙ from-render (walked (up_to_slash rel)) (walked-IsName (up_to_slash rel)))
    ∙ sym (from-append false start (split slash (up_to_slash rel)) (split slash link))

target-render :
    (rel link : Text)
    → is_rooted rel ≡ false
    → clean (join_path (dir rel) link) ≡ render false (walked (link_path (dir rel) link))
target-render rel link h =
    let w = walked (up_to_slash rel) in
    let good = walked-IsName (up_to_slash rel) in
    let n : dir rel ≢ [] = subst (λ t. t ≢ []) (sym (dir-render rel h)) (render-ne-nil w good) in
    let r : is_rooted (dir rel) ≡ false =
      subst (λ t. is_rooted t ≡ false) (sym (dir-render rel h)) (render-not_rooted w good) in
    let q = link_path-not_rooted (dir rel) link n r in
    ap clean (join_path-clean (dir rel) link n)
    ∙ clean_idem (link_path (dir rel) link) q
    ∙ clean-walked (link_path (dir rel) link) q

ups_of_depth : (w : Walked) (o : Option ℕ) → Agrees w o → (0 < w.ups) ↔ (o ≡ none)
ups_of_depth w none h = (λ _. refl, λ _. h)
ups_of_depth w (some d) h = (λ lt. absurd (omega arith), λ e. absurd (cc))

-- The code's test of a link sees it leave the package exactly when, read segment by segment from
-- the link's directory, it steps out of the package root at some point.
leads_outside_iff :
    (rel link : Text)
    → is_rooted rel ≡ false
    → (leads_outside rel link ≡ true) ↔ (depth_after 0 (route rel link) ≡ none)
leads_outside_iff rel link h =
    let w = walked (link_path (dir rel) link) in
    let out = outside-render w (walked-IsName (link_path (dir rel) link)) in
    let agrees =
      ups_of_depth (clean_from false start (route rel link)) _ (from-Agrees [] (route rel link)) in
    let same : w ≡ clean_from false start (route rel link) = walked-route rel link h in
    let target = target-render rel link h in
    (
      λ e.
          agrees.0
            (subst (λ v. 0 < v.ups) same (out.0 (subst (λ t. is_outside t ≡ true) target e))),
      λ e.
          subst (λ t. is_outside t ≡ true) (sym target)
            (out.1 (subst (λ v. 0 < v.ups) (sym same) (agrees.1 e))),
    )

-- What a package may carry: a relative name with no ".." segment and no backslash, no special file
-- and no special bit, and for a symlink a relative link whose route never leaves the package root.
pub record IsPackable (rel : Text) (fi : FileInfo) (link : Text) : Type 0 where
  pub relative_name : is_rooted rel ≡ false
  pub no_backslash : contains (codes "\\") rel ≡ false
  pub no_dot_dot : All (λ seg. seg ≢ dot_dot) (split slash rel)
  pub plain_file : is_special_file fi ≡ false
  pub plain_bits : has_special_bits fi ≡ false
  pub inside :
      fi.is_symlink ≡ true
      → (is_rooted link ≡ false) × (d : ℕ) × (depth_after 0 (route rel link) ≡ some d)

-- The ladder of tests, over their answers.
abbrev ladder : Bool → Bool → Bool → Bool → Bool → Bool → Bool → Option Refusal
ladder absolute dots special bits symlink link_rooted outside =
    if absolute
    then some absolute_path
    else if dots
    then some escapes_root
    else if special
    then some special_file
    else if bits
    then some special_bits
    else if not symlink
    then none
    else if link_rooted
    then some link_absolute
    else if outside
    then some link_outside_package
    else none

ladder-none :
    (a d s b y r o : Bool)
    → (ladder a d s b y r o ≡ none) ↔ (
        (a ≡ false)
        × (d ≡ false)
        × (s ≡ false)
        × (b ≡ false)
        × (y ≡ true → (r ≡ false) × (o ≡ false)))
ladder-none true d s b y r o = (λ h. absurd (cc), λ h. absurd (cc h.0))
ladder-none false true s b y r o = (λ h. absurd (cc), λ h. absurd (cc h.1))
ladder-none false false true b y r o = (λ h. absurd (cc), λ h. absurd (cc h.2))
ladder-none false false false true y r o = (λ h. absurd (cc), λ h. absurd (cc h.3))
ladder-none false false false false false r o =
    (λ h. (refl, refl, refl, refl, λ e. absurd (cc)), λ h. refl)
ladder-none false false false false true true o = (λ h. absurd (cc), λ h. absurd (cc (h.4 refl).0))
ladder-none false false false false true false true =
    (λ h. absurd (cc), λ h. absurd (cc (h.4 refl).1))
ladder-none false false false false true false false =
    (λ h. (refl, refl, refl, refl, λ e. (refl, refl)), λ h. refl)

pub prefix-rooted : (p : Text) → has_prefix (codes "/") p ≡ is_rooted p
unfolding has_prefix
prefix-rooted [] = refl
prefix-rooted (c ∷ p) = ground arith

pub false_of_not_true : (b : Bool) → ¬ (b ≡ true) → b ≡ false
false_of_not_true true h = absurd (h refl)
false_of_not_true false h = refl

true_or_false : (b : Bool) → b ≡ false → ¬ (b ≡ true)
true_or_false b h e = cc

All-ne_of_Any : (segs : List Text) → ¬ Any (λ x. x ≡ dot_dot) segs → All (λ x. x ≢ dot_dot) segs
All-ne_of_Any [] h = tt
All-ne_of_Any (s ∷ segs) h = (λ e. h (inl e), All-ne_of_Any segs (λ r. h (inr r)))

Any-of_All_ne : (segs : List Text) → All (λ x. x ≢ dot_dot) segs → ¬ Any (λ x. x ≡ dot_dot) segs
Any-of_All_ne [] h r = r
Any-of_All_ne (s ∷ segs) h (inl e) = h.0 e
Any-of_All_ne (s ∷ segs) h (inr r) = Any-of_All_ne segs h.1 r

some_of_ne_none : (o : Option ℕ) → o ≢ none → (d : ℕ) × (o ≡ some d)
some_of_ne_none none h = absurd (h refl)
some_of_ne_none (some d) h = (d, refl)

or_false : (a b : Bool) → (a || b) ≡ false → (a ≡ false) × (b ≡ false)
or_false a b h = ground arith

-- Refuse accepts an entry exactly when its path is relative, has no backslash and no segment "..",
-- it is no special file, carries no special bits, and, for a symlink, the target is relative and
-- the route from the package root through the link's directory and along the target never steps
-- above the root.
pub refuse-none_iff :
    (rel : Text) (fi : FileInfo) (link : Text)
    → (refuse rel fi link ≡ none) ↔ IsPackable rel fi link
unfolding refuse
refuse-none_iff rel fi link =
    let tests =
      ladder-none (is_absolute rel) (escapes rel) (is_special_file fi) (has_special_bits fi)
        fi.is_symlink (has_prefix (codes "/") link) (leads_outside rel link) in
    (λ h. accepted (tests.0 h), λ h. tests.1 (tests_of h))
  where
    accepted :
        (is_absolute rel ≡ false)
          × (escapes rel ≡ false)
          × (is_special_file fi ≡ false)
          × (has_special_bits fi ≡ false)
          × (fi.is_symlink ≡ true
              → (has_prefix (codes "/") link ≡ false) × (leads_outside rel link ≡ false))
        → IsPackable rel fi link
    accepted (a, d, s, b, l) =
        let (rooted, slashes) = or_false _ _ a in
        let rel_ok = sym (prefix-rooted rel) ∙ rooted in
        record {
          relative_name = rel_ok;
          no_backslash = slashes;
          no_dot_dot =
              All-ne_of_Any (split slash rel) (λ r. true_or_false _ d ((escapes_iff rel).1 r));
          plain_file = s;
          plain_bits = b;
          inside = λ y.
              let (r, o) = l y in
              let (depth, e) =
                some_of_ne_none (depth_after 0 (route rel link))
                  (λ n. true_or_false _ o ((leads_outside_iff rel link rel_ok).1 n)) in
              (sym (prefix-rooted link) ∙ r, depth, e);
        }

    tests_of :
        IsPackable rel fi link
        → (is_absolute rel ≡ false)
          × (escapes rel ≡ false)
          × (is_special_file fi ≡ false)
          × (has_special_bits fi ≡ false)
          × (fi.is_symlink ≡ true
              → (has_prefix (codes "/") link ≡ false) × (leads_outside rel link ≡ false))
    tests_of p = (
      rw (prefix-rooted rel, p.relative_name) p.no_backslash,
      false_of_not_true _
          (λ e. Any-of_All_ne (split slash rel) p.no_dot_dot ((escapes_iff rel).0 e)),
      p.plain_file,
      p.plain_bits,
      λ y.
          let (r, depth, e) = p.inside y in
          (
            prefix-rooted link ∙ r,
            false_of_not_true _
                (λ o. absurd (cc (e, (leads_outside_iff rel link p.relative_name).0 o))),
          ),
    )
