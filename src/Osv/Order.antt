-- ===== src/Osv/Order.antt =====
-- internal/audit/osv.go: cmp orders the versions that can be compared.
use mcp_library.Common.{
  ◌≡◌, refl, sym, ap, subst, ◌∙◌, Bool, true, false, ◌&&◌, Option, none, some, Ordering,
  if◌then◌else◌,
}
use mcp_library.Common.Order.{flip, Composes}
use mcp_library.Common.Tests.{is_some}
use mcp_library.Common.Text.{Text, codes, text_eq}
use mcp_library.Osv.{Point, osv_compare, sign, is_after, comes_after}
use mcp_library.Version.{compare_version}
use mcp_library.Version.Preorder.{compare_version-IsPartialPreorder, compare_version-comparable}

-- A comparison with a least version in front.
abbrev zeroed : Bool → Bool → Option Ordering → Option Ordering
zeroed a b rest =
    if a && b
    then some Ordering.eq
    else if a
    then some Ordering.lt
    else if b
    then some Ordering.gt
    else rest

some_same : (x y : Ordering) → ◌≡◌ {A = Option Ordering} (some x) (some y) → x ≡ y
some_same x y h = cc h

below_first : (y : Ordering) → Composes Ordering.lt y Ordering.lt
below_first Ordering.lt = refl
below_first Ordering.eq = refl
below_first Ordering.gt = tt

above_last : (x : Ordering) → Composes x Ordering.gt Ordering.gt
above_last Ordering.lt = tt
above_last Ordering.eq = refl
above_last Ordering.gt = refl

module _ (ecosystem : Text) where
  abbrev is_zero : Text → Bool
  is_zero v = text_eq v (codes "0")

  osv_exchange :
      (a b : Text) (x : Ordering)
      → osv_compare ecosystem a b ≡ some x
      → osv_compare ecosystem b a ≡ some (flip x)
  unfolding osv_compare
  osv_exchange a b x =
      by_zeros (is_zero a) (is_zero b)
        ((compare_version-IsPartialPreorder ecosystem).exchange a b x)
    where
      by_zeros :
          {p q : Option Ordering} (za zb : Bool)
          → (p ≡ some x → q ≡ some (flip x))
          → zeroed za zb p ≡ some x
          → zeroed zb za q ≡ some (flip x)
      by_zeros true true rest h = ap (λ o. some (flip o)) (some_same _ x h)
      by_zeros true false rest h = ap (λ o. some (flip o)) (some_same _ x h)
      by_zeros false true rest h = ap (λ o. some (flip o)) (some_same _ x h)
      by_zeros false false rest h = rest h

  -- At most: not after it.
  abbrev pub NotAfter : Text → Text → Type 0
  NotAfter a b = is_after (sign (osv_compare ecosystem a b)) ≡ false

  abbrev pub Known : Point → Type 0
  Known p = is_some (osv_compare ecosystem p.version p.version) ≡ true

  osv_comparable :
      (a b : Text)
      → is_some (osv_compare ecosystem a a) ≡ true
      → is_some (osv_compare ecosystem b b) ≡ true
      → is_some (osv_compare ecosystem a b) ≡ true
  unfolding osv_compare
  osv_comparable a b =
      by_zeros (compare_version ecosystem a a) (compare_version ecosystem b b)
        (compare_version ecosystem a b) (is_zero a) (is_zero b)
        (compare_version-comparable ecosystem a b)
    where
      by_zeros :
          (p q r : Option Ordering) (za zb : Bool)
          → (is_some p ≡ true → is_some q ≡ true → is_some r ≡ true)
          → is_some (zeroed za za p) ≡ true
          → is_some (zeroed zb zb q) ≡ true
          → is_some (zeroed za zb r) ≡ true
      by_zeros p q r true true rest h k = refl
      by_zeros p q r true false rest h k = refl
      by_zeros p q r false true rest h k = refl
      by_zeros p q r false false rest h k = rest h k

  osv_compose :
      (a b c : Text) (x y z : Ordering)
      → osv_compare ecosystem a b ≡ some x
      → osv_compare ecosystem b c ≡ some y
      → osv_compare ecosystem a c ≡ some z
      → Composes x y z
  unfolding osv_compare
  osv_compose a b c x y z =
      by_zeros (is_zero a) (is_zero b) (is_zero c)
        ((compare_version-IsPartialPreorder ecosystem).compose a b c x y)
    where
      given : {x' y' z' : Ordering} → x' ≡ x → y' ≡ y → z' ≡ z → Composes x' y' z' → Composes x y z
      given {y' = y'} {z' = z'} ex ey ez h =
          subst (λ u. Composes x y u) ez
            (subst (λ u. Composes x u z') ey (subst (λ u. Composes u y' z') ex h))

      by_zeros :
          {p q r : Option Ordering} (za zb zc : Bool)
          → (p ≡ some x → q ≡ some y → (w : Ordering) × (r ≡ some w) × Composes x y w)
          → zeroed za zb p ≡ some x
          → zeroed zb zc q ≡ some y
          → zeroed za zc r ≡ some z
          → Composes x y z
      by_zeros true true true rest h k l =
          given (some_same _ x h) (some_same _ y k) (some_same _ z l) refl
      by_zeros true true false rest h k l =
          given (some_same _ x h) (some_same _ y k) (some_same _ z l) refl
      by_zeros true false true rest h k l =
          given (some_same _ x h) (some_same _ y k) (some_same _ z l) tt
      by_zeros true false false rest h k l =
          given (some_same _ x h) refl (some_same _ z l) (below_first y)
      by_zeros false true true rest h k l =
          given (some_same _ x h) (some_same _ y k) (some_same _ z l) refl
      by_zeros false true false rest h k l = given (some_same _ x h) (some_same _ y k) refl tt
      by_zeros false false true rest h k l =
          given refl (some_same _ y k) (some_same _ z l) (above_last x)
      by_zeros false false false rest h k l =
          let (w, e, composed) = rest h k in given refl refl (some_same w z (sym e ∙ l)) composed

  -- The order on versions that can be compared.
  pub NotAfter-trans :
      (p q r : Point)
      → Known p
      → Known q
      → Known r
      → NotAfter p.version q.version
      → NotAfter q.version r.version
      → NotAfter p.version r.version
  NotAfter-trans p q r kp kq kr h k =
      let (x, ex) = answer (osv_comparable p.version q.version kp kq) in
      let (y, ey) = answer (osv_comparable q.version r.version kq kr) in
      let (z, ez) = answer (osv_comparable p.version r.version kp kr) in
      rw ez (
        step x y z (rw ex at h) (rw ey at k)
          (osv_compose p.version q.version r.version x y z ex ey ez))
    where
      answer : {o : Option Ordering} → is_some o ≡ true → (x : Ordering) × (o ≡ some x)
      answer {o = none} h = absurd (cc h)
      answer {o = some x} h = (x, refl)

      step :
          (x y z : Ordering)
          → is_after x ≡ false
          → is_after y ≡ false
          → Composes x y z
          → is_after z ≡ false
      step Ordering.gt y z h k c = absurd (cc h)
      step x Ordering.gt z h k c = absurd (cc k)
      step Ordering.eq Ordering.eq z h k c = rw c refl
      step Ordering.eq Ordering.lt z h k c = rw c refl
      step Ordering.lt Ordering.eq z h k c = rw c refl
      step Ordering.lt Ordering.lt z h k c = rw c refl

  pub NotAfter-asym :
      (p q : Point) → comes_after ecosystem p q ≡ true → NotAfter q.version p.version
  NotAfter-asym p q h = by_answer (osv_compare ecosystem p.version q.version) refl h
    where
      by_answer :
          (o : Option Ordering)
          → osv_compare ecosystem p.version q.version ≡ o
          → is_after (sign o) ≡ true
          → NotAfter q.version p.version
      by_answer (some Ordering.gt) e h = rw (osv_exchange p.version q.version Ordering.gt e) refl
      by_answer (some Ordering.eq) e h = absurd (cc h)
      by_answer (some Ordering.lt) e h = absurd (cc h)
      by_answer none e h = absurd (cc h)
