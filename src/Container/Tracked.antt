-- ===== src/Container/Tracked.antt =====
-- internal/smoke/container.go: what Up and Start leave behind is recorded, or the stack lost sight of
-- it.
use mcp_library.Common.{
  ◌≡◌, refl, sym, ap, subst, ◌∙◌, ◌⊎◌, inl, inr, Bool, true, false, not, ◌||◌, List, [], ◌∷◌, ◌++◌,
  All, All-map, All-filter, Any, Any-append_left, Any-append_right, on_if, filter_by, if◌then◌else◌,
}
use mcp_library.Common.Text.{Text, text_eq_refl}
use mcp_library.Container.Stack.{
  Resource, net, box, same_resource, Stack, proxy_name, up, start, remove, Removal, counts_gone,
  stays_behind, is_mistaken, behind_rm, Downed, down_pkgs, down_made, down, Life, brought_up,
  started, taken_down,
}

abbrev pub InPkgs : List Text → Resource → Type 0
InPkgs pkgs r = Any (λ n. r ≡ box n) pkgs

abbrev pub IsMade : Bool → Resource → Resource → Type 0
IsMade made it r = (made ≡ true) × (r ≡ it)

-- The stack knows of the resource.
abbrev pub Recorded : Stack → Resource → Type 0
Recorded s r =
    InPkgs s.pkgs r
    ⊎ (IsMade s.proxy_made (box (proxy_name s.network)) r ⊎ IsMade s.net_made (net s.network) r)

same_resource_refl : (r : Resource) → same_resource r r ≡ true
same_resource_refl (net a) = text_eq_refl a
same_resource_refl (box a) = text_eq_refl a

module _ (Q : Resource → Type 0) where
  -- A removal leaves what is not the resource.
  All-remove :
      (r : Resource) (live : List Resource) → All (λ x. (x ≡ r) ⊎ Q x) live → All Q (remove r live)
  unfolding remove
  All-remove r [] h = tt
  All-remove r (x ∷ live) h = by_test (same_resource x r) refl h.0 (All-remove r live h.1)
    where
      by_test :
          (b : Bool)
          → same_resource x r ≡ b
          → (x ≡ r) ⊎ Q x
          → All Q (filter_by (λ x. not (same_resource x r)) live)
          → All Q (
              if not b
              then x ∷ filter_by (λ x. not (same_resource x r)) live
              else filter_by (λ x. not (same_resource x r)) live)
      by_test true e q rest = rest
      by_test false e (inl same) rest =
          absurd (cc (sym e ∙ ap (λ y. same_resource y r) same ∙ same_resource_refl r))
      by_test false e (inr q) rest = (q, rest)

-- What a removal leaves on record or by other means: it stays if the answer is an error, and else is
-- gone or is one that only seemed to be.
module _ (answers : Resource → Removal) (Q : Resource → Type 0)
    (mistaken : (r : Resource) → is_mistaken (answers r) ≡ true → Q r) where
  behind_rm-All :
      (r : Resource) (live : List Resource)
      → counts_gone (answers r) ≡ true
      → All (λ x. (x ≡ r) ⊎ Q x) live
      → All Q (behind_rm answers r live)
  behind_rm-All r live gone h =
      on_if (All Q) (stays_behind (answers r))
        (λ stays. All-map (λ x k. still x (mistaken r (rw (gone, stays) refl)) k) live h)
        (λ left. All-remove Q r live h)
    where
      still : (x : Resource) → Q r → (x ≡ r) ⊎ Q x → Q x
      still x q (inl e) = subst Q (sym e) q
      still x q (inr k) = k

  -- A removal brings nothing back.
  behind_rm-keeps :
      (P : Resource → Type 0) (r : Resource) (live : List Resource)
      → All P live
      → All P (behind_rm answers r live)
  unfolding remove
  behind_rm-keeps P r live h =
      on_if (All P) (stays_behind (answers r)) (λ stays. h)
        (λ left. All-filter P (λ x. not (same_resource x r)) live h)

down_pkgs-keeps :
    (answers : Resource → Removal) (Q : Resource → Type 0) (ns : List Text) (live : List Resource)
    → ((r : Resource) → is_mistaken (answers r) ≡ true → Q r)
    → All (λ r. InPkgs ns r ⊎ Q r) live
    → All (λ r. InPkgs (down_pkgs answers ns live).left r ⊎ Q r) (down_pkgs answers ns live).live
unfolding down_pkgs
down_pkgs-keeps answers Q [] live mistaken h = h
down_pkgs-keeps answers Q (n ∷ ns) live mistaken h =
    on_if {A = Downed} (λ d. All (λ r. InPkgs d.left r ⊎ Q r) d.live)
      (counts_gone (answers (box n)))
      (λ gone. down_pkgs-keeps answers Q ns (behind_rm answers (box n) live) mistaken (
        behind_rm-All answers (λ r. InPkgs ns r ⊎ Q r) (λ r m. inr (mistaken r m)) (box n) live gone
          (All-map (λ r k. front r k) live h)))
      (λ kept.
        All-map (λ r k. outward _ r k) (down_pkgs answers ns (behind_rm answers (box n) live)).live
          (down_pkgs-keeps answers (λ r. (r ≡ box n) ⊎ Q r) ns (behind_rm answers (box n) live)
            (λ r m. inr (mistaken r m))
            (behind_rm-keeps answers Q mistaken _ (box n) live
              (All-map (λ r k. inward r k) live h))))
  where
    inward : (r : Resource) → InPkgs (n ∷ ns) r ⊎ Q r → InPkgs ns r ⊎ ((r ≡ box n) ⊎ Q r)
    inward r (inl (inl e)) = inr (inl e)
    inward r (inl (inr k)) = inl k
    inward r (inr q) = inr (inr q)

    outward :
        (left : List Text) (r : Resource)
        → InPkgs left r ⊎ ((r ≡ box n) ⊎ Q r)
        → InPkgs (n ∷ left) r ⊎ Q r
    outward left r (inl k) = inl (inr k)
    outward left r (inr (inl e)) = inl (inl e)
    outward left r (inr (inr q)) = inr q

    front : (r : Resource) → InPkgs (n ∷ ns) r ⊎ Q r → (r ≡ box n) ⊎ (InPkgs ns r ⊎ Q r)
    front r (inl (inl e)) = inl e
    front r (inl (inr k)) = inr (inl k)
    front r (inr q) = inr (inr q)

down_made-keeps :
    (answers : Resource → Removal) (Q : Resource → Type 0) (it : Resource) (made : Bool)
    (live : List Resource)
    → ((r : Resource) → is_mistaken (answers r) ≡ true → Q r)
    → All (λ r. IsMade made it r ⊎ Q r) live
    → All
        (λ r. IsMade ((down_made answers it made live).0) it r ⊎ Q r)
        ((down_made answers it made live).1)
unfolding down_made
down_made-keeps answers Q it false live mistaken h = h
down_made-keeps answers Q it true live mistaken h =
    on_if {A = Bool × List Resource × List Resource} (λ d. All (λ r. IsMade d.0 it r ⊎ Q r) d.1)
      (counts_gone (answers it))
      (λ gone.
        behind_rm-All answers (λ r. IsMade false it r ⊎ Q r) (λ r m. inr (mistaken r m)) it live
          gone (All-map (λ r k. front r k) live h))
      (λ kept. behind_rm-keeps answers Q mistaken (λ r. IsMade true it r ⊎ Q r) it live h)
  where
    front : (r : Resource) → IsMade true it r ⊎ Q r → (r ≡ it) ⊎ (IsMade false it r ⊎ Q r)
    front r (inl k) = inl k.1
    front r (inr q) = inr (inr q)

-- What the stack may have: what it records, and what it lost sight of.
abbrev pub IsTracked : (Resource → Bool) → Stack → Type 0
IsTracked lost s = All (λ r. Recorded s r ⊎ (lost r ≡ true)) s.live

spread : {P M N L : Type 0} → (P ⊎ (M ⊎ N)) ⊎ L → P ⊎ (M ⊎ (N ⊎ L))
spread (inl (inl p)) = inl p
spread (inl (inr (inl m))) = inr (inl m)
spread (inl (inr (inr n))) = inr (inr (inl n))
spread (inr l) = inr (inr (inr l))

rotate : {P M N L : Type 0} → P ⊎ (M ⊎ (N ⊎ L)) → M ⊎ (N ⊎ (P ⊎ L))
rotate (inl p) = inr (inr (inl p))
rotate (inr (inl m)) = inl m
rotate (inr (inr (inl n))) = inr (inl n)
rotate (inr (inr (inr l))) = inr (inr (inr l))

gather : {P M N L : Type 0} → N ⊎ (P ⊎ (M ⊎ L)) → (P ⊎ (M ⊎ N)) ⊎ L
gather (inl n) = inl (inr (inr n))
gather (inr (inl p)) = inl (inl p)
gather (inr (inr (inl m))) = inl (inr (inl m))
gather (inr (inr (inr l))) = inr l

abbrev lost_with : (Resource → Bool) → (Resource → Removal) → Resource → Bool
lost_with lost answers r = lost r || is_mistaken (answers r)

or_true_right : (a b : Bool) → b ≡ true → (a || b) ≡ true
or_true_right true b h = refl
or_true_right false b h = h

also_lost :
    {P : Type 0} (lost : Resource → Bool) (answers : Resource → Removal) (r : Resource)
    → P ⊎ (lost r ≡ true)
    → P ⊎ (lost_with lost answers r ≡ true)
also_lost lost answers r (inl p) = inl p
also_lost lost answers r (inr l) = inr (rw l refl)

pub down-IsTracked :
    (lost : Resource → Bool) (answers : Resource → Removal) (s : Stack)
    → IsTracked lost s
    → IsTracked (lost_with lost answers) ((down answers s).0)
unfolding down
down-IsTracked lost answers s h =
    let boxes = down_pkgs answers s.pkgs s.live in
    let name = box (proxy_name s.network) in
    let proxy = down_made answers name s.proxy_made boxes.live in
    let slip : (r : Resource) → is_mistaken (answers r) ≡ true → lost_with lost answers r ≡ true =
      λ r m. or_true_right (lost r) (is_mistaken (answers r)) m in
    let a =
      down_pkgs-keeps answers
        (λ r.
          IsMade s.proxy_made name r
          ⊎ (IsMade s.net_made (net s.network) r ⊎ (lost_with lost answers r ≡ true)))
        s.pkgs s.live (λ r m. inr (inr (slip r m)))
        (All-map (λ r k. spread (also_lost lost answers r k)) s.live h) in
    let b =
      down_made-keeps answers
        (λ r.
          IsMade s.net_made (net s.network) r
          ⊎ (InPkgs boxes.left r ⊎ (lost_with lost answers r ≡ true)))
        name s.proxy_made boxes.live (λ r m. inr (inr (slip r m)))
        (All-map (λ r k. rotate k) boxes.live a) in
    let c =
      down_made-keeps answers
        (λ r. InPkgs boxes.left r ⊎ (IsMade proxy.0 name r ⊎ (lost_with lost answers r ≡ true)))
        (net s.network) s.net_made proxy.1 (λ r m. inr (inr (slip r m)))
        (All-map (λ r k. rotate k) proxy.1 b) in
    All-map (λ r k. gather k) _ c

pub Life-IsTracked : {lost : Resource → Bool} {s : Stack} → Life lost s → IsTracked lost s
unfolding up start
Life-IsTracked (brought_up network true net_left true) =
    (inl (inr (inl (refl, refl))), (inl (inr (inr (refl, refl))), tt))
Life-IsTracked (brought_up network true net_left false) = (inl (inr (inr (refl, refl))), tt)
Life-IsTracked (brought_up network false true proxy_left) =
    (inr (same_resource_refl (net network)), tt)
Life-IsTracked (brought_up network false false proxy_left) = tt
Life-IsTracked (started {lost} {s} life name left) =
    let kept = All-map (λ r k. also name r k) s.live (Life-IsTracked life) in
    on_if (All (λ r. Recorded (record s { pkgs = s.pkgs ++ (name ∷ []) }) r ⊎ (lost r ≡ true))) left
      (λ there.
        (inl (inl (Any-append_right (λ n. box name ≡ box n) s.pkgs (name ∷ []) (inl refl))), kept))
      (λ absent. kept)
  where
    also :
        (name : Text) (r : Resource)
        → Recorded s r ⊎ (lost r ≡ true)
        → Recorded (record s { pkgs = s.pkgs ++ (name ∷ []) }) r ⊎ (lost r ≡ true)
    also name r (inl (inl k)) = inl (inl (Any-append_left (λ n. r ≡ box n) s.pkgs (name ∷ []) k))
    also name r (inl (inr k)) = inl (inr k)
    also name r (inr k) = inr k
Life-IsTracked (taken_down {lost} {s} life answers) =
    down-IsTracked lost answers s (Life-IsTracked life)
