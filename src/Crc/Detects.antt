-- ===== src/Crc/Detects.antt =====
-- `compute_crc32` of src/core/message/BinaryMessageParser.cpp, and bytes that are changed on the way.
use stradvision.Common.{
  ℕ, All, All-append, IsByte, IsU32, List, [], ap, arith, bit_xor, length, refl, suc, sym, ◌*◌,
  ◌++◌, ◌+◌, ◌/◌, ◌^◌, ◌∙◌, ◌∷◌, ◌≡◌, ◌≢◌, ◌≤◌,
}
use stradvision.Common.Bits.{bit_xor-bit_xor_left, bit_xor-lt, bit_xor-shr}
use stradvision.Crc.{crc_byte}
use stradvision.Crc.Back.{bits_back, bits_meet, higher, shr-lt}
use stradvision.Crc.Fold.{
  crc32, crc_byte-lt, crc_of, crc_of-append, crc_of-injective, crc_of-lt, xor_cancel,
}

-- A byte flips nothing above the eighth place.
above_byte : (c x k : ℕ) → IsByte x → 8 ≤ k → bit_xor c x / 2 ^ k ≡ bit_xor (c / 2 ^ k) (0 / 2 ^ k)
above_byte c x k h l = bit_xor-shr k c x ∙ ap (bit_xor (c / 2 ^ k)) (higher x 0 8 k l (omega arith))

-- Back through the rounds of one byte, whatever the byte.
byte_back :
    (u v x y j : ℕ)
    → IsU32 u
    → IsU32 v
    → IsByte x
    → IsByte y
    → j + 8 ≤ 32
    → crc_byte u x / 2 ^ j ≡ crc_byte v y / 2 ^ j
    → u / 2 ^ (j + 8) ≡ v / 2 ^ (j + 8)
unfolding crc_byte
byte_back u v x y j hu hv hx hy l e =
    xor_cancel (u / 2 ^ (j + 8)) (v / 2 ^ (j + 8)) (0 / 2 ^ (j + 8)) (shr-lt u (j + 8) hu)
      (shr-lt v (j + 8) hv) (shr-lt 0 (j + 8) (omega arith))
      (sym (above_byte u x (j + 8) hx (omega arith))
        ∙ bits_back 8 (bit_xor u x) (bit_xor v y) j (bit_xor-lt 32 u x hu (omega arith))
            (bit_xor-lt 32 v y hv (omega arith)) l e
        ∙ above_byte v y (j + 8) hy (omega arith))

-- Back through the rounds of some bytes.
bytes_back :
    (xs ys : List ℕ) (u v j : ℕ)
    → All IsByte xs
    → All IsByte ys
    → IsU32 u
    → IsU32 v
    → length xs ≡ length ys
    → j + 8 * length xs ≤ 32
    → crc_of xs u / 2 ^ j ≡ crc_of ys v / 2 ^ j
    → u / 2 ^ (j + 8 * length xs) ≡ v / 2 ^ (j + 8 * length xs)
unfolding crc_of
bytes_back [] [] u v j hx hy hu hv same l e = higher u v j (j + 8 * 0) (omega arith) e
bytes_back [] (y ∷ ys) u v j hx hy hu hv same l e = absurd (omega (arith, same))
bytes_back (x ∷ xs) [] u v j hx hy hu hv same l e = absurd (omega (arith, same))
bytes_back (x ∷ xs) (y ∷ ys) u v j hx hy hu hv same l e =
    let n = length xs in
    higher u v (j + 8 * n + 8) (j + 8 * suc n) (omega arith) (
      byte_back u v x y (j + 8 * n) hu hv hx.0 hy.0 (omega arith) (
        bytes_back xs ys (crc_byte u x) (crc_byte v y) j hx.1 hy.1 (crc_byte-lt u x hu hx.0)
          (crc_byte-lt v y hv hy.0) (omega arith) (omega arith) e))

-- At most four bytes are determined by the register before them and after them.
crc_of-window :
    (xs ys : List ℕ) (c : ℕ)
    → All IsByte xs
    → All IsByte ys
    → IsU32 c
    → length xs ≡ length ys
    → length xs ≤ 4
    → crc_of xs c ≡ crc_of ys c
    → xs ≡ ys
unfolding crc_of
crc_of-window [] [] c hx hy hc same l e = refl
crc_of-window [] (y ∷ ys) c hx hy hc same l e = absurd (omega (arith, same))
crc_of-window (x ∷ xs) [] c hx hy hc same l e = absurd (omega (arith, same))
crc_of-window (x ∷ xs) (y ∷ ys) c hx hy hc same l e =
    ap (λ (t : ℕ). t ∷ xs) first
    ∙ ap (λ (t : List ℕ). y ∷ t)
        (crc_of-window xs ys u hx.1 hy.1 hu (omega arith) (omega arith)
          (e ∙ ap (λ (t : ℕ). crc_of ys (crc_byte c t)) (sym first)))
  where
    u : ℕ
    u = crc_byte c x

    v : ℕ
    v = crc_byte c y

    hu : IsU32 u
    hu = crc_byte-lt c x hc hx.0

    top : u / 2 ^ 24 ≡ v / 2 ^ 24
    top = higher u v (0 + 8 * length xs) 24 (omega arith) (
        bytes_back xs ys u v 0 hx.1 hy.1 hu (crc_byte-lt c y hc hy.0) (omega arith) (omega arith)
          (ap (λ (t : ℕ). t / 2 ^ 0) e))

    mixed : bit_xor c x ≡ bit_xor c y
    mixed =
        bits_meet 8 (bit_xor c x) (bit_xor c y) (bit_xor-lt 32 c x hc (omega (arith, hx.0)))
          (bit_xor-lt 32 c y hc (omega (arith, hy.0))) (omega arith)
          (above_byte c x 8 hx.0 (omega arith) ∙ sym (above_byte c y 8 hy.0 (omega arith)))
          (unfold crc_byte in top)

    first : x ≡ y
    first =
        sym (bit_xor-bit_xor_left 32 c x hc (omega (arith, hx.0)))
        ∙ ap (bit_xor c) mixed
        ∙ bit_xor-bit_xor_left 32 c y hc (omega (arith, hy.0))

-- Two runs of bytes that differ, and only within a window of at most four bytes in a row, have different
-- checksums, wherever the window stands.
pub crc32-detects :
    (xs us vs ys : List ℕ)
    → All IsByte xs
    → All IsByte us
    → All IsByte vs
    → All IsByte ys
    → length us ≡ length vs
    → length us ≤ 4
    → us ≢ vs
    → crc32 (xs ++ (us ++ ys)) ≢ crc32 (xs ++ (vs ++ ys))
crc32-detects xs us vs ys hx ha hb hy same l ne e = ne (
    crc_of-window us vs mid ha hb mid-lt same l (
      crc_of-injective ys (crc_of us mid) (crc_of vs mid) hy (crc_of-lt us mid ha mid-lt)
        (crc_of-lt vs mid hb mid-lt) (sym (whole us) ∙ equal ∙ whole vs)))
  where
    mid : ℕ
    mid = crc_of xs 0xFFFFFFFF

    mid-lt : IsU32 mid
    mid-lt = crc_of-lt xs 0xFFFFFFFF hx (omega arith)

    whole : (zs : List ℕ) → crc_of (xs ++ (zs ++ ys)) 0xFFFFFFFF ≡ crc_of ys (crc_of zs mid)
    whole zs = crc_of-append xs (zs ++ ys) 0xFFFFFFFF ∙ crc_of-append zs ys mid

    bounded : (zs : List ℕ) → All IsByte zs → IsU32 (crc_of (xs ++ (zs ++ ys)) 0xFFFFFFFF)
    bounded zs hz =
        crc_of-lt (xs ++ (zs ++ ys)) 0xFFFFFFFF
          (All-append IsByte xs (zs ++ ys) hx (All-append IsByte zs ys hz hy)) (omega arith)

    equal : crc_of (xs ++ (us ++ ys)) 0xFFFFFFFF ≡ crc_of (xs ++ (vs ++ ys)) 0xFFFFFFFF
    equal = omega (arith, e, bounded us ha, bounded vs hb)
