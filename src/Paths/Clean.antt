-- ===== src/Paths/Clean.antt =====
-- `Clean` reads its own result back, and when that result leads out of the directory.
use mathlib.Core.List.{reverse, reverse-reverse, reverse-cons}
use mcp_library.Common.{
  ℕ, zero, suc, ◌+◌, ◌<◌, ◌≡◌, ◌≢◌, ◌↔◌, refl, ap, ◌∙◌, Bool, true, false, List, [], ◌∷◌, ◌++◌,
  append_assoc, append-nil, arith, All, All-append, on_if,
}
use mcp_library.Common.Split.{Lacks, split-join, All-Lacks-split}
use mcp_library.Common.Text.{Text, text_eq, has_prefix, split, join}
use mcp_library.Paths.{
  Walked, start, back, is_skipped, dot_dot, slash, clean_step, clean_from, dot_dots, segments,
  relative, render, is_rooted, clean, is_outside,
}

-- A segment that `Clean` keeps as a name.
abbrev pub IsName : Text → Type 0
IsName seg = (is_skipped seg ≡ false) × (text_eq seg dot_dot ≡ false) × Lacks slash seg

step-IsName :
    (w : Walked) (seg : Text)
    → Lacks slash seg
    → All IsName w.names
    → All IsName (clean_step false w seg).names
unfolding clean_step
step-IsName w seg lacks h =
    on_if {A = Walked} (λ v. All IsName v.names) (is_skipped seg) (λ _. h)
      λ kept.
        on_if {A = Walked} (λ v. All IsName v.names) (text_eq seg dot_dot)
          (λ _. back-IsName w.ups w.names h) (λ name. ((kept, name, lacks), h))
  where
    back-IsName : (u : ℕ) (ns : List Text) → All IsName ns → All IsName (back false u ns).names
    back-IsName u [] h = tt
    back-IsName u (n ∷ ns) h = h.1

from-IsName :
    (w : Walked) (segs : List Text)
    → All (Lacks slash) segs
    → All IsName w.names
    → All IsName (clean_from false w segs).names
unfolding clean_from
from-IsName w [] lacks h = h
from-IsName w (seg ∷ segs) lacks h =
    from-IsName (clean_step false w seg) segs lacks.1 (step-IsName w seg lacks.0 h)

pub from-append :
    (r : Bool) (w : Walked) (xs ys : List Text)
    → clean_from r w (xs ++ ys) ≡ clean_from r (clean_from r w xs) ys
unfolding clean_from
from-append r w [] ys = refl
from-append r w (x ∷ xs) ys = from-append r (clean_step r w x) xs ys

from_names :
    (u : ℕ) (ns xs : List Text)
    → All IsName xs
    → clean_from false (record { ups = u; names = ns }) xs
      ≡ record { ups = u; names = reverse xs ++ ns }
unfolding clean_from clean_step
from_names u ns [] h = refl
from_names u ns (x ∷ xs) h =
    rw (h.0.0, h.0.1)
      (from_names u (x ∷ ns) xs h.1
        ∙ ap (λ l. let w : Walked = record { ups = u; names = l } in w)
            (rw (reverse-cons, append_assoc) refl))

from_dot_dots :
    (v u : ℕ)
    → clean_from false (record { ups = v; names = [] }) (dot_dots u)
      ≡ record { ups = u + v; names = [] }
unfolding clean_from clean_step text_eq
from_dot_dots v zero = ap (λ n. let w : Walked = record { ups = n; names = [] } in w) (omega arith)
from_dot_dots v (suc u) =
    from_dot_dots (suc v) u
    ∙ ap (λ n. let w : Walked = record { ups = n; names = [] } in w) (omega arith)

pub All-reverse {ℓ} : {A : Type ℓ} (P : A → Type 0) (xs : List A) → All P xs → All P (reverse xs)
All-reverse P [] h = tt
All-reverse P (x ∷ xs) h =
    rw reverse-cons (All-append P (reverse xs) (x ∷ []) (All-reverse P xs h.1) (h.0, tt))

-- Reading the segments that were kept gives the same state.
from-segments : (w : Walked) → All IsName w.names → clean_from false start (segments w) ≡ w
from-segments w h =
    from-append false start (dot_dots w.ups) (reverse w.names)
    ∙ ap (λ v. clean_from false v (reverse w.names)) (from_dot_dots 0 w.ups)
    ∙ from_names (w.ups + 0) [] (reverse w.names) (All-reverse IsName w.names h)
    ∙ same (w.ups + 0) (omega arith)
  where
    same :
        (u : ℕ)
        → u ≡ w.ups
        → let v : Walked = record { ups = u; names = reverse (reverse w.names) ++ [] } in v ≡ w
    same u e = rw (e, reverse-reverse, append-nil) refl

Lacks-dot_dots : (u : ℕ) → All (Lacks slash) (dot_dots u)
Lacks-dot_dots zero = tt
Lacks-dot_dots (suc u) = (omega arith, Lacks-dot_dots u)

Lacks-names : (ns : List Text) → All IsName ns → All (Lacks slash) ns
Lacks-names [] h = tt
Lacks-names (n ∷ ns) h = (h.0.2, Lacks-names ns h.1)

Lacks-segments : (w : Walked) → All IsName w.names → All (Lacks slash) (segments w)
Lacks-segments w h =
    All-append (Lacks slash) (dot_dots w.ups) (reverse w.names) (Lacks-dot_dots w.ups)
      (All-reverse (Lacks slash) w.names (Lacks-names w.names h))

-- The segments of a rendered path lead to the same state as the path.
reread :
    (segs : List Text)
    → All (Lacks slash) segs
    → clean_from false start (split slash (relative segs)) ≡ clean_from false start segs
reread [] h = unfold split clean_from clean_step text_eq in refl
reread (s ∷ segs) h = ap (clean_from false start) (split-join slash s segs h)

pub from-render :
    (w : Walked) → All IsName w.names → clean_from false start (split slash (render false w)) ≡ w
from-render w h = reread (segments w) (Lacks-segments w h) ∙ from-segments w h

-- A first segment that is not empty and holds no slash.
abbrev IsSegment : Text → Type 0
IsSegment s = (s ≢ []) × Lacks slash s

name-IsSegment : (n : Text) → IsName n → IsSegment n
name-IsSegment [] h = absurd (unfold text_eq in cc h.0)
name-IsSegment (c ∷ n) h = (cc, h.2)

not_rooted_head :
    (s : Text) (segs : List Text) → IsSegment s → is_rooted (join slash (s ∷ segs)) ≡ false
unfolding join
not_rooted_head [] segs h = absurd (h.0 refl)
not_rooted_head (c ∷ s) [] h = ground (arith, h.1.0)
not_rooted_head (c ∷ s) (t ∷ segs) h = ground (arith, h.1.0)

relative-not_rooted : (segs : List Text) → All IsSegment segs → is_rooted (relative segs) ≡ false
relative-not_rooted [] h = refl
relative-not_rooted (s ∷ segs) h = not_rooted_head s segs h.0

IsSegment-dot_dots : (u : ℕ) → All IsSegment (dot_dots u)
IsSegment-dot_dots zero = tt
IsSegment-dot_dots (suc u) = ((cc, omega arith), IsSegment-dot_dots u)

IsSegment-names : (ns : List Text) → All IsName ns → All IsSegment ns
IsSegment-names [] h = tt
IsSegment-names (n ∷ ns) h = (name-IsSegment n h.0, IsSegment-names ns h.1)

IsSegment-segments : (w : Walked) → All IsName w.names → All IsSegment (segments w)
IsSegment-segments w h =
    All-append IsSegment (dot_dots w.ups) (reverse w.names) (IsSegment-dot_dots w.ups)
      (All-reverse IsSegment w.names (IsSegment-names w.names h))

pub render-not_rooted : (w : Walked) → All IsName w.names → is_rooted (render false w) ≡ false
render-not_rooted w h = relative-not_rooted (segments w) (IsSegment-segments w h)

join-ne-nil : (s : Text) (segs : List Text) → s ≢ [] → join slash (s ∷ segs) ≢ []
unfolding join
join-ne-nil [] segs h = absurd (h refl)
join-ne-nil (c ∷ s) [] h = cc
join-ne-nil (c ∷ s) (t ∷ segs) h = cc

relative-ne-nil : (segs : List Text) → All IsSegment segs → relative segs ≢ []
relative-ne-nil [] h = cc
relative-ne-nil (s ∷ segs) h = join-ne-nil s segs h.0.0

pub render-ne-nil : (w : Walked) → All IsName w.names → render false w ≢ []
render-ne-nil w h = relative-ne-nil (segments w) (IsSegment-segments w h)

-- The state that `Clean` reaches on a relative path.
abbrev pub walked : Text → Walked
walked p = clean_from false start (split slash p)

pub walked-IsName : (p : Text) → All IsName (walked p).names
walked-IsName p = from-IsName start (split slash p) (All-Lacks-split slash p) tt

pub clean-walked : (p : Text) → is_rooted p ≡ false → clean p ≡ render false (walked p)
unfolding clean
clean-walked p h = rw h refl

-- Cleaning a relative path twice is cleaning it once.
pub clean_idem : (p : Text) → is_rooted p ≡ false → clean (clean p) ≡ clean p
clean_idem p h = rw (clean-walked p h) (
    clean-walked (render false (walked p)) (render-not_rooted (walked p) (walked-IsName p))
    ∙ ap (render false) (from-render (walked p) (walked-IsName p)))

name-inside : (n : Text) (ns : List Text) → IsName n → is_outside (join slash (n ∷ ns)) ≡ false
unfolding is_outside join text_eq has_prefix
name-inside [] ns h = cc h.0
name-inside (a ∷ []) [] h = ground (arith, h.0)
name-inside (a ∷ []) (m ∷ ns) h = ground (arith, h.0)
name-inside (a ∷ b ∷ []) [] h = ground (arith, h.1)
name-inside (a ∷ b ∷ []) (m ∷ ns) h = ground (arith, h.1)
name-inside (a ∷ b ∷ c ∷ n) [] h = ground (arith, h.2.1.1.0)
name-inside (a ∷ b ∷ c ∷ n) (m ∷ ns) h = ground (arith, h.2.1.1.0)

up-outside : (segs : List Text) → is_outside (join slash (dot_dot ∷ segs)) ≡ true
unfolding is_outside join text_eq has_prefix
up-outside [] = refl
up-outside (s ∷ segs) = refl

names-inside : (ns : List Text) → All IsName ns → is_outside (relative ns) ≡ false
names-inside [] h = unfold is_outside text_eq has_prefix in refl
names-inside (n ∷ ns) h = name-inside n ns h.0

-- A rendered path leads out exactly when a ".." was kept.
pub outside-render :
    (w : Walked) → All IsName w.names → (is_outside (render false w) ≡ true) ↔ (0 < w.ups)
outside-render w h = by_ups w.ups
  where
    by_ups : (u : ℕ) → (is_outside (relative (dot_dots u ++ reverse w.names)) ≡ true) ↔ (0 < u)
    by_ups zero = (
      λ e. absurd (cc (e, names-inside (reverse w.names) (All-reverse IsName w.names h))),
      λ lt. absurd (omega arith),
    )
    by_ups (suc u) = (λ e. omega arith, λ lt. up-outside (dot_dots u ++ reverse w.names))
