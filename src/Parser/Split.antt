-- ===== src/Parser/Split.antt =====
-- The reads of `deserialize` on bytes that start with a header, or that are too few.
use mathlib.Core.Path.{subst, ap₂}
use stradvision.Bytes.{read_u16_be, read_u32_be, read_u64_be}
use stradvision.Bytes.Sums.{
  bytes_u16, bytes_u16-sum, bytes_u32, bytes_u32-sum, read_u16-bytes, read_u32-bytes,
  read_u64-halves, sum_u16, sum_u32,
}
use stradvision.Common.{
  All, IsByte, IsU16, IsU32, List, [], ap, arith, drop, if◌then◌else◌, length, ltb, lt→ltb, none,
  refl, some, suc, sym, zero, ℕ, ◌%◌, ◌*◌, ◌++◌, ◌+◌, ◌/◌, ◌<◌, ◌^◌, ◌∙◌, ◌∷◌, ◌≡◌, ◌≤◌,
}
use stradvision.Message.{Header}
use stradvision.Parser.{copy_bytes, read_u8}
use stradvision.Parser.Frame.{IsHeader, header_bytes}

pub copy_bytes-append : (n : ℕ) (xs ys : List ℕ) → length xs ≡ n → copy_bytes n (xs ++ ys) ≡ some xs
unfolding copy_bytes
copy_bytes-append zero [] ys h = refl
copy_bytes-append zero (x ∷ xs) ys h = absurd (omega arith)
copy_bytes-append (suc n) [] ys h = absurd (omega arith)
copy_bytes-append (suc n) (x ∷ xs) ys h = rw (copy_bytes-append n xs ys (omega arith))

pub copy_bytes_short : (n : ℕ) (p : List ℕ) → length p < n → copy_bytes n p ≡ none
unfolding copy_bytes
copy_bytes_short zero p h = absurd (omega arith)
copy_bytes_short (suc n) [] h = refl
copy_bytes_short (suc n) (b ∷ p) h = rw (copy_bytes_short n p (omega arith))

pub copy_payload :
    (n : ℕ) (p : List ℕ) {q : List ℕ}
    → copy_bytes n p ≡ some q
    → (if ltb 0 n then copy_bytes n p else some []) ≡ some q
unfolding copy_bytes
copy_payload zero p e = e
copy_payload (suc n) p e = rw (lt→ltb 0 (suc n) (omega arith)) e

module _ (h : Header) (v : IsHeader h) (tail : List ℕ) where
  pub read_payload_len : read_u32_be (header_bytes h ++ tail) ≡ some h.payload_len
  unfolding header_bytes
  read_payload_len = read_u32-bytes h.payload_len _ v.4

  pub read_type : read_u16_be (drop 4 (header_bytes h ++ tail)) ≡ some h.type
  unfolding header_bytes
  read_type = read_u16-bytes h.type _ v.0

  pub read_flags : read_u8 (drop 6 (header_bytes h ++ tail)) ≡ some h.flags
  unfolding header_bytes read_u8
  read_flags = refl

  pub read_agent_id : read_u32_be (drop 7 (header_bytes h ++ tail)) ≡ some h.agent_id
  unfolding header_bytes
  read_agent_id = read_u32-bytes h.agent_id _ v.1

  pub read_header_id : read_u32_be (drop 11 (header_bytes h ++ tail)) ≡ some h.header_id
  unfolding header_bytes
  read_header_id = read_u32-bytes h.header_id _ v.2

  pub read_timestamp : read_u64_be (drop 15 (header_bytes h ++ tail)) ≡ some h.timestamp
  unfolding header_bytes
  read_timestamp =
      read_u64-halves (h.timestamp / 2 ^ 32) (h.timestamp % 2 ^ 32) tail high (omega arith)
      ∙ ap some (omega arith)
    where
      high : IsU32 (h.timestamp / 2 ^ 32)
      high = let t = v.3 in omega arith

-- To show a property of some bytes, show it of an encoded integer and the rest.
module _ (P : List ℕ → Type 0) (n : ℕ) where
  pub by_u32 :
      (p : List ℕ)
      → 4 + n ≤ length p
      → All IsByte p
      → ((w : ℕ) (q : List ℕ) → IsU32 w → n ≤ length q → All IsByte q → P (bytes_u32 w ++ q))
      → P p
  by_u32 [] h a k = absurd (omega arith)
  by_u32 (_ ∷ []) h a k = absurd (omega arith)
  by_u32 (_ ∷ _ ∷ []) h a k = absurd (omega arith)
  by_u32 (_ ∷ _ ∷ _ ∷ []) h a k = absurd (omega arith)
  by_u32 (b₀ ∷ b₁ ∷ b₂ ∷ b₃ ∷ q) h (a₀, (a₁, (a₂, (a₃, a)))) k =
      subst (λ (t : List ℕ). P (t ++ q)) (bytes_u32-sum b₀ b₁ b₂ b₃ a₀ a₁ a₂ a₃)
        (k (sum_u32 b₀ b₁ b₂ b₃) q (omega arith) (omega arith) a)

  by_u16 :
      (p : List ℕ)
      → 2 + n ≤ length p
      → All IsByte p
      → ((w : ℕ) (q : List ℕ) → IsU16 w → n ≤ length q → All IsByte q → P (bytes_u16 w ++ q))
      → P p
  by_u16 [] h a k = absurd (omega arith)
  by_u16 (_ ∷ []) h a k = absurd (omega arith)
  by_u16 (b₀ ∷ b₁ ∷ q) h (a₀, (a₁, a)) k =
      subst (λ (t : List ℕ). P (t ++ q)) (bytes_u16-sum b₀ b₁ a₀ a₁)
        (k (sum_u16 b₀ b₁) q (omega arith) (omega arith) a)

  by_u8 :
      (p : List ℕ)
      → 1 + n ≤ length p
      → All IsByte p
      → ((b : ℕ) (q : List ℕ) → IsByte b → n ≤ length q → All IsByte q → P (b ∷ q))
      → P p
  by_u8 [] h a k = absurd (omega arith)
  by_u8 (b ∷ q) h (hb, a) k = k b q hb (omega arith) a

abbrev pub StartsWithHeader : List ℕ → Type 0
StartsWithHeader p =
    (h : Header) × (tail : List ℕ) × IsHeader h × (p ≡ header_bytes h ++ tail) × All IsByte tail

two_halves :
    (hi lo : ℕ) (tail : List ℕ)
    → IsU32 lo
    → bytes_u32 hi ++ (bytes_u32 lo ++ tail)
      ≡ bytes_u32 ((hi * 2 ^ 32 + lo) / 2 ^ 32) ++ (bytes_u32 ((hi * 2 ^ 32 + lo) % 2 ^ 32) ++ tail)
two_halves hi lo tail h =
    let e : (hi * 2 ^ 32 + lo) / 2 ^ 32 ≡ hi = omega arith in
    let f : (hi * 2 ^ 32 + lo) % 2 ^ 32 ≡ lo = omega arith in
    sym (ap₂ (λ (a b : ℕ). bytes_u32 a ++ (bytes_u32 b ++ tail)) e f)

-- Any 23 bytes are the encoding of a header.
pub take_header : (p : List ℕ) → 23 ≤ length p → All IsByte p → StartsWithHeader p
unfolding header_bytes
take_header p long a = by_u32 StartsWithHeader 19 p long a λ len p₁ hlen l₁ a₁.
    by_u16 (λ q. StartsWithHeader (bytes_u32 len ++ q)) 17 p₁ l₁ a₁
      λ type p₂ htype l₂ a₂.
        by_u8 (λ q. StartsWithHeader (bytes_u32 len ++ (bytes_u16 type ++ q))) 16 p₂ l₂ a₂
          λ flags p₃ hflags l₃ a₃.
            let front : List ℕ → List ℕ =
              λ (q : List ℕ). bytes_u32 len ++ (bytes_u16 type ++ (flags ∷ q)) in
            by_u32 (λ q. StartsWithHeader (front q)) 12 p₃ l₃ a₃
              λ agent p₄ hagent l₄ a₄.
                by_u32 (λ q. StartsWithHeader (front (bytes_u32 agent ++ q))) 8 p₄ l₄ a₄
                  λ id p₅ hid l₅ a₅.
                    let front' : List ℕ → List ℕ =
                      λ (q : List ℕ). front (bytes_u32 agent ++ (bytes_u32 id ++ q)) in
                    by_u32 (λ q. StartsWithHeader (front' q)) 4 p₅ l₅ a₅
                      λ hi p₆ hhi l₆ a₆.
                        by_u32 (λ q. StartsWithHeader (front' (bytes_u32 hi ++ q))) 0 p₆ l₆ a₆
                          λ lo tail hlo l₇ a₇. (
                            record {
                              type = type;
                              agent_id = agent;
                              header_id = id;
                              timestamp = hi * 2 ^ 32 + lo;
                              payload_len = len;
                              flags = flags;
                            },
                            tail,
                            (htype, hagent, hid, omega arith, hlen, hflags),
                            ap front' (two_halves hi lo tail hlo),
                            a₇,
                          )
