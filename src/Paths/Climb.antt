-- ===== src/Paths/Climb.antt =====
-- An independent reading of a path, segment by segment, as a depth below the directory that it
-- starts from, and how `Clean` relates to it.
use mcp_library.Common.{
  ℕ, zero, suc, ◌<◌, ◌≡◌, refl, sym, subst, Bool, true, false, List, [], ◌∷◌, Option, none, some,
  arith, length, if◌then◌else◌, on_if,
}
use mcp_library.Common.Text.{Text, text_eq}
use mcp_library.Paths.{Walked, is_skipped, dot_dot, clean_step, clean_from, back}

abbrev down_one : ℕ → Option ℕ
down_one zero = none
down_one (suc d) = some d

-- The depth after one segment; `none` is a step out of the directory.
unfoldable depth_step : ℕ → Text → Option ℕ
depth_step d seg =
    if is_skipped seg then some d else if text_eq seg dot_dot then down_one d else some (suc d)

abbrev and_next : Option ℕ → (ℕ → Option ℕ) → Option ℕ
and_next none f = none
and_next (some d) f = f d

-- The depth after all segments, if no prefix of them leaves the directory.
unfoldable pub depth_after : ℕ → List Text → Option ℕ
unfolding depth_step
depth_after d [] = some d
depth_after d (seg ∷ segs) = and_next (depth_step d seg) (λ e. depth_after e segs)

-- What `Clean` has kept agrees with a depth.
abbrev pub Agrees : Walked → Option ℕ → Type 0
Agrees w none = 0 < w.ups
Agrees w (some d) = (w.ups ≡ 0) × (length w.names ≡ d)

step_out : (w : Walked) (seg : Text) → 0 < w.ups → 0 < (clean_step false w seg).ups
unfolding clean_step
step_out w seg h =
    on_if {A = Walked} (λ v. 0 < v.ups) (is_skipped seg) (λ _. h)
      λ _.
        on_if {A = Walked} (λ v. 0 < v.ups) (text_eq seg dot_dot) (λ _. back_out w.ups w.names h)
          (λ _. h)
  where
    back_out : (u : ℕ) (ns : List Text) → 0 < u → 0 < (back false u ns).ups
    back_out u [] h = omega arith
    back_out u (n ∷ ns) h = h

from_out : (w : Walked) (segs : List Text) → 0 < w.ups → 0 < (clean_from false w segs).ups
unfolding clean_from
from_out w [] h = h
from_out w (seg ∷ segs) h = from_out (clean_step false w seg) segs (step_out w seg h)

Agrees-on :
    (skip up : Bool) (seg : Text) (ns : List Text)
    → Agrees
        (if skip
          then (record { ups = 0; names = ns })
          else if up
          then back false 0 ns
          else (record { ups = 0; names = seg ∷ ns }))
        (if skip
          then some (length ns)
          else if up
          then down_one (length ns)
          else some (suc (length ns)))
Agrees-on true up seg ns = (refl, refl)
Agrees-on false true seg [] = omega arith
Agrees-on false true seg (n ∷ ns) = (refl, refl)
Agrees-on false false seg ns = (refl, refl)

then-Agrees :
    (segs : List Text) (v : Walked) (o : Option ℕ)
    → Agrees v o
    → ((ns : List Text)
        → Agrees
            (clean_from false (record { ups = 0; names = ns }) segs)
            (depth_after (length ns) segs))
    → Agrees (clean_from false v segs) (and_next o (λ e. depth_after e segs))
then-Agrees segs v none h ih = from_out v segs h
then-Agrees segs v (some d) h ih =
    subst
      (λ u.
        Agrees (clean_from false (record { ups = u; names = v.names }) segs) (depth_after d segs))
      (sym h.0)
      (subst
        (λ k.
          Agrees (clean_from false (record { ups = 0; names = v.names }) segs) (depth_after k segs))
        h.1 (ih v.names))

-- `Clean` keeps no ".." exactly while the depth is defined, and then as many names as the depth.
pub from-Agrees :
    (ns : List Text) (segs : List Text)
    → Agrees (clean_from false (record { ups = 0; names = ns }) segs) (depth_after (length ns) segs)
unfolding clean_from depth_after
from-Agrees ns [] = (refl, refl)
from-Agrees ns (seg ∷ segs) =
    then-Agrees segs (clean_step false (record { ups = 0; names = ns }) seg)
      (depth_step (length ns) seg)
      (unfold clean_step depth_step in Agrees-on (is_skipped seg) (text_eq seg dot_dot) seg ns)
      (λ ms. from-Agrees ms segs)
