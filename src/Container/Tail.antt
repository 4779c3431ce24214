-- ===== src/Container/Tail.antt =====
-- internal/smoke/container.go: tailBuffer keeps the last bytes of what a package writes to stderr.
use mcp_library.Common.{
  ℕ, zero, suc, ◌+◌, ◌-◌, ◌≤◌, ◌≡◌, refl, sym, ap, ◌∙◌, List, [], ◌∷◌, ◌++◌, leb, ltb, length,
  length-append, append_assoc, append-nil, on_if, leb→le, arith, if◌then◌else◌,
}
use mcp_library.Common.Text.{Text}

-- `s[n:]`.
abbrev drop : ℕ → Text → Text
drop zero s = s
drop (suc n) [] = []
drop (suc n) (c ∷ s) = drop n s

unfoldable pub write : ℕ → Text → Text → Text
write max buf p =
    if leb max (length p)
    then drop (length p - max) p
    else (if ltb 0 (length buf + length p - max)
        then drop (length buf + length p - max) buf ++ p
        else buf ++ p)

unfoldable pub write_all : ℕ → Text → List Text → Text
unfolding write
write_all max buf [] = buf
write_all max buf (p ∷ ps) = write_all max (write max buf p) ps

abbrev pub concat : List Text → Text
concat [] = []
concat (p ∷ ps) = p ++ concat ps

-- The last `max` bytes, or all where there are fewer.
abbrev pub tail_of : ℕ → Text → Text
tail_of max s = drop (length s - max) s

drop-same : (m n : ℕ) (s : Text) → m ≡ n → drop m s ≡ drop n s
drop-same m n s h = ap (λ k. drop k s) h

drop-append : (n : ℕ) (s t : Text) → n ≤ length s → drop n (s ++ t) ≡ drop n s ++ t
drop-append zero s t h = refl
drop-append (suc n) [] t h = absurd (omega (arith, h))
drop-append (suc n) (c ∷ s) t h = drop-append n s t (omega (arith, h))

drop-past : (n : ℕ) (s t : Text) → drop (length s + n) (s ++ t) ≡ drop n t
drop-past n [] t = drop-same _ n t (omega arith)
drop-past n (c ∷ s) t =
    drop-same _ (suc (length s + n)) (c ∷ (s ++ t)) (omega arith) ∙ drop-past n s t

drop-nil : (m : ℕ) → drop m [] ≡ []
drop-nil zero = refl
drop-nil (suc m) = refl

drop-drop : (m n : ℕ) (s : Text) → drop m (drop n s) ≡ drop (n + m) s
drop-drop m zero s = drop-same m _ s (omega arith)
drop-drop m (suc n) [] = drop-nil m ∙ drop-same (suc (n + m)) _ [] (omega arith)
drop-drop m (suc n) (c ∷ s) = drop-drop m n s ∙ drop-same (suc (n + m)) _ (c ∷ s) (omega arith)

length-drop : (n : ℕ) (s : Text) → length (drop n s) ≡ length s - n
length-drop zero s = omega arith
length-drop (suc n) [] = omega arith
length-drop (suc n) (c ∷ s) = omega (arith, length-drop n s)

-- Writing to the tail of a text leaves the tail of the longer text.
write-tail_of : (max : ℕ) (s p : Text) → write max (tail_of max s) p ≡ tail_of max (s ++ p)
unfolding write
write-tail_of max s p =
    on_if (λ t. t ≡ tail_of max (s ++ p)) (leb max (length p))
      (λ long. sym (
        ap (λ n. drop n (s ++ p)) (omega (arith, leb→le max (length p) long, length-append s p))
        ∙ drop-past (length p - max) s p))
      (λ short.
        on_if (λ t. t ≡ tail_of max (s ++ p)) (ltb 0 (length (tail_of max s) + length p - max))
          (λ full.
            ap (λ t. t ++ p)
              (drop-drop (length (tail_of max s) + length p - max) (length s - max) s)
            ∙ sym (
                drop-append (length s - max + (length (tail_of max s) + length p - max)) s p
                  (ground (arith, length-drop (length s - max) s)))
            ∙ ap (λ n. drop n (s ++ p))
                (ground (arith, length-append s p, length-drop (length s - max) s)))
          (λ room.
            sym (drop-append (length s - max) s p (omega arith))
            ∙ drop-same (length s - max) _ (s ++ p)
                (ground (arith, length-append s p, length-drop (length s - max) s))))

-- Whatever is written in whatever pieces, a tail buffer of some size holds the last bytes of it
-- all, as many as fit, or all of it where it is shorter.
pub write_all-tail_of :
    (max : ℕ) (writes : List Text) → write_all max [] writes ≡ tail_of max (concat writes)
unfolding write_all
write_all-tail_of max writes =
    ap (λ b. write_all max b writes) (sym (drop-nil (0 - max))) ∙ from max [] writes
  where
    from :
        (max : ℕ) (s : Text) (ps : List Text)
        → write_all max (tail_of max s) ps ≡ tail_of max (s ++ concat ps)
    from max s [] = ap (tail_of max) (sym (append-nil s))
    from max s (p ∷ ps) =
        ap (λ b. write_all max b ps) (write-tail_of max s p)
        ∙ from max (s ++ p) ps
        ∙ ap (tail_of max) (append_assoc s p (concat ps))
