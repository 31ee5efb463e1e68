-- ===== src/Base/BigEndian.antt =====
-- Laws of the big-endian notation of encoding/binary: it is a bijection, and keeps the order.
use mathlib.Core.List.{foldl-append}
use native.Mathlib.Nat.{add-zero}
use native.Mathlib.Nat.{pow-suc, mul_comm}
use Prim.Native.Nat.{ℕ, zero, suc, ◌+◌, ◌*◌, ◌/◌, ◌%◌, ◌^◌, ◌<◌, compare, Ordering}
use mathlib.Core.Path.{◌≡◌, refl, ap, ◌∙◌, sym, subst}
use mathlib.Core.List.{[], ◌∷◌, ◌++◌, append-nil, append_assoc, foldl}
use native.Mathlib.Omega.{arith}
use kubebrain.Base.Lists.{length, All, length-append, All-append}
use kubebrain.Base.Bytes.{Bytes, IsByte, or_else, cmp, big_endian, big_endian_value}

pub length-big_endian : (w n : ℕ) → length (big_endian w n) ≡ w
unfolding big_endian
length-big_endian zero n = refl
length-big_endian (suc w) n =
    omega (
      arith,
      length-append (big_endian w (n / 256)) ((n % 256) ∷ []),
      length-big_endian w (n / 256),
    )

pub big_endian-IsByte : (w n : ℕ) → All IsByte (big_endian w n)
unfolding big_endian
big_endian-IsByte zero n = tt
big_endian-IsByte (suc w) n =
    All-append IsByte (big_endian w (n / 256)) ((n % 256) ∷ []) (big_endian-IsByte w (n / 256))
      (omega arith, tt)

pub big_endian_value-snoc :
    (bs : Bytes) (b : ℕ) → big_endian_value (bs ++ b ∷ []) ≡ big_endian_value bs * 256 + b
unfolding big_endian_value
big_endian_value-snoc bs b = rw foldl-append

pow256-suc : (w : ℕ) → 256 ^ suc w ≡ 256 * 256 ^ w
pow256-suc w = rw pow-suc (mul_comm _ _)

pub big_endian_value-big_endian : (w n : ℕ) → n < 256 ^ w → big_endian_value (big_endian w n) ≡ n
unfolding big_endian
big_endian_value-big_endian zero n h = unfold big_endian_value in omega arith
big_endian_value-big_endian (suc w) n h =
    rw big_endian_value-snoc
      (omega (arith, big_endian_value-big_endian w (n / 256) (omega (arith, pow256-suc w))))

-- What a comparison gives for two lists of one length is decided by the first difference.
cmp-append :
    (a b c d : Bytes) → length a ≡ length b → cmp (a ++ c) (b ++ d) ≡ or_else (cmp a b) (cmp c d)
unfolding cmp
cmp-append [] [] c d e = refl
cmp-append [] (y ∷ ys) c d e = absurd (omega arith)
cmp-append (x ∷ xs) [] c d e = absurd (omega arith)
cmp-append (x ∷ xs) (y ∷ ys) c d e = ground (arith, cmp-append xs ys c d)

compare_digits :
    (m n : ℕ)
    → or_else (compare (m / 256) (n / 256)) (or_else (compare (m % 256) (n % 256)) Ordering.eq)
      ≡ compare m n
compare_digits m n = ground arith

-- Equal widths compare as the numbers do.
pub cmp-big_endian :
    (w m n : ℕ) → m < 256 ^ w → n < 256 ^ w → cmp (big_endian w m) (big_endian w n) ≡ compare m n
unfolding big_endian cmp
cmp-big_endian zero m n hm hn = ground arith
cmp-big_endian (suc w) m n hm hn =
    cmp-append (big_endian w (m / 256)) (big_endian w (n / 256)) _ _
      (length-big_endian w _ ∙ sym (length-big_endian w _))
    ∙ ap (λ o. or_else o (or_else (compare (m % 256) (n % 256)) Ordering.eq))
        (cmp-big_endian w (m / 256) (n / 256) (omega (arith, pow256-suc w))
          (omega (arith, pow256-suc w)))
    ∙ compare_digits m n

-- The reader's loop undoes the notation, whatever was read before.
big_endian-foldl :
    (w acc : ℕ) (bs : Bytes)
    → All IsByte bs
    → big_endian (w + length bs) (foldl (λ a b. a * 256 + b) acc bs) ≡ big_endian w acc ++ bs
big_endian-foldl w acc [] h = rw (add-zero, append-nil)
big_endian-foldl w acc (b ∷ bs) h =
    ap (λ k. big_endian k (foldl (λ a b. a * 256 + b) (acc * 256 + b) bs)) (omega arith)
    ∙ big_endian-foldl (suc w) (acc * 256 + b) bs h.1
    ∙ ap (λ l. l ++ bs) (big_endian-step w acc b h.0)
    ∙ append_assoc (big_endian w acc) (b ∷ []) bs
  where
    big_endian-step :
        (v a c : ℕ) → IsByte c → big_endian (suc v) (a * 256 + c) ≡ big_endian v a ++ c ∷ []
    big_endian-step v a c hc =
        unfold big_endian in
        ap (λ q. big_endian v q ++ ((a * 256 + c) % 256) ∷ []) (omega arith)
        ∙ ap (λ r. big_endian v a ++ r ∷ []) (omega arith)

pub big_endian-big_endian_value :
    (bs : Bytes) → All IsByte bs → big_endian (length bs) (big_endian_value bs) ≡ bs
unfolding big_endian_value
big_endian-big_endian_value bs h =
    ap (λ k. big_endian k (foldl (λ a b. a * 256 + b) 0 bs)) (omega arith)
    ∙ big_endian-foldl 0 0 bs h
    ∙ unfold big_endian in refl

pub big_endian_value-lt :
    (acc : ℕ) (bs : Bytes) (w : ℕ)
    → All IsByte bs
    → acc < 256 ^ w
    → foldl (λ a b. a * 256 + b) acc bs < 256 ^ (w + length bs)
big_endian_value-lt acc [] w h ha = rw add-zero ha
big_endian_value-lt acc (b ∷ bs) w h ha =
    subst (λ k. foldl (λ a b. a * 256 + b) (acc * 256 + b) bs < 256 ^ k) (omega arith)
      (big_endian_value-lt (acc * 256 + b) bs (suc w) h.1 (omega (arith, pow256-suc w, h.0)))
