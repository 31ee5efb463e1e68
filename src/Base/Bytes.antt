-- ===== src/Base/Bytes.antt =====
-- Go's []byte as a list of byte values, with the functions of package bytes and of
-- encoding/binary that the program calls. A slice's capacity is its length.
use Prim.Native.Nat.{ℕ, zero, suc, ◌+◌, ◌*◌, ◌/◌, ◌%◌, ◌<◌, compare, Ordering}
use mathlib.Core.Path.{◌≡◌, refl}
use mathlib.Core.Bool.{Bool, true, false, ◌&&◌, ◌||◌}
use mathlib.Core.List.{List, [], ◌∷◌, ◌++◌, foldl}
use native.Mathlib.Omega.{arith}
use kubebrain.Base.Tests.{◌==◌}

abbrev pub Bytes : Type 0
Bytes = List ℕ

-- what follows when the bytes compared so far give `o`
abbrev pub or_else : Ordering → Ordering → Ordering
or_else Ordering.lt next = Ordering.lt
or_else Ordering.eq next = next
or_else Ordering.gt next = Ordering.gt

-- bytes.Compare
unfoldable pub cmp : Bytes → Bytes → Ordering
cmp [] [] = Ordering.eq
cmp [] (y ∷ ys) = Ordering.lt
cmp (x ∷ xs) [] = Ordering.gt
cmp (x ∷ xs) (y ∷ ys) = or_else (compare x y) (cmp xs ys)

-- bytes.Equal
unfoldable pub equal : Bytes → Bytes → Bool
equal [] [] = true
equal [] (y ∷ ys) = false
equal (x ∷ xs) [] = false
equal (x ∷ xs) (y ∷ ys) = x == y && equal xs ys

-- bytes.HasPrefix
unfoldable pub has_prefix : Bytes → Bytes → Bool
has_prefix s [] = true
has_prefix [] (p ∷ ps) = false
has_prefix (x ∷ s) (p ∷ ps) = x == p && has_prefix s ps

-- bytes.Contains
unfoldable pub contains : Bytes → Bytes → Bool
unfolding has_prefix
contains [] p = has_prefix [] p
contains (x ∷ s) p = has_prefix (x ∷ s) p || contains s p

-- The `w` low bytes of `n`, the most significant first.
unfoldable pub big_endian : ℕ → ℕ → Bytes
big_endian zero n = []
big_endian (suc w) n = big_endian w (n / 256) ++ (n % 256) ∷ []

abbrev pub IsByte : ℕ → Type 0
IsByte b = b < 256

-- the value of bytes, the most significant first
unfoldable pub big_endian_value : Bytes → ℕ
big_endian_value = foldl (λ acc b. acc * 256 + b) 0

pub equal→eq : (a b : Bytes) → equal a b ≡ true → a ≡ b
unfolding equal
equal→eq [] [] h = refl
equal→eq [] (y ∷ ys) h = ground arith
equal→eq (x ∷ xs) [] h = ground arith
equal→eq (x ∷ xs) (y ∷ ys) h = ground (arith, equal→eq xs ys)

pub equal_refl : (a : Bytes) → equal a a ≡ true
unfolding equal
equal_refl [] = refl
equal_refl (x ∷ xs) = ground (arith, equal_refl xs)

pub cmp_refl : (a : Bytes) → cmp a a ≡ Ordering.eq
unfolding cmp
cmp_refl [] = refl
cmp_refl (x ∷ xs) = ground (arith, cmp_refl xs)

pub cmp-eq→eq : (a b : Bytes) → cmp a b ≡ Ordering.eq → a ≡ b
unfolding cmp
cmp-eq→eq [] [] h = refl
cmp-eq→eq [] (y ∷ ys) h = ground arith
cmp-eq→eq (x ∷ xs) [] h = ground arith
cmp-eq→eq (x ∷ xs) (y ∷ ys) h = ground (arith, cmp-eq→eq xs ys)

pub cmp-lt_trans :
    (a b c : Bytes) → cmp a b ≡ Ordering.lt → cmp b c ≡ Ordering.lt → cmp a c ≡ Ordering.lt
unfolding cmp
cmp-lt_trans [] [] c p q = ground arith
cmp-lt_trans [] (y ∷ ys) [] p q = ground arith
cmp-lt_trans [] (y ∷ ys) (z ∷ zs) p q = refl
cmp-lt_trans (x ∷ xs) [] c p q = ground arith
cmp-lt_trans (x ∷ xs) (y ∷ ys) [] p q = ground arith
cmp-lt_trans (x ∷ xs) (y ∷ ys) (z ∷ zs) p q = ground (arith, cmp-lt_trans xs ys zs)

pub cmp-append_same : (p a b : Bytes) → cmp (p ++ a) (p ++ b) ≡ cmp a b
unfolding cmp
cmp-append_same [] a b = refl
cmp-append_same (x ∷ p) a b = ground (arith, cmp-append_same p a b)
