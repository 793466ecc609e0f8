-- ===== src/Page/Scrape.antt =====
-- What a scraper reads of the response of src/controller/MetricsServer.cpp.
use native.Mathlib.Nat.{pow-suc}
use stradvision.Common.{
  ℕ, Bool-cases, IsU64, List, [], ap, arith, codes, drop, if◌then◌else◌, inl, inr, leb, length, ltb,
  ltb→lt, refl, suc, zero, ◌%◌, ◌&&◌, ◌*◌, ◌++◌, ◌+◌, ◌-◌, ◌/◌, ◌<◌, ◌^◌, ◌∙◌, ◌∷◌, ◌≡◌, ◌⊎◌,
}
use stradvision.Metrics.{MetricsTracker}
use stradvision.Page.{
  DoubleOps, active_head, avg_rtt, digits, failures_head, length_head, length_tail, put_u64,
  rtt_head,
}

-- The digits at the front of a text, behind a number that was read already.
unfoldable pub read_digits : ℕ → List ℕ → ℕ × List ℕ
read_digits n [] = (n, [])
read_digits n (c ∷ text) =
    let more = read_digits (n * 10 + (c - b'0')) text in
    if leb b'0' c && leb c b'9' then more else (n, c ∷ text)

-- No digit stands at the front.
abbrev pub Ends : List ℕ → Type 0
Ends [] = Unit {0}
Ends (c ∷ text) = (c < b'0') ⊎ (b'9' < c)

read_digits_end : (n : ℕ) (text : List ℕ) → Ends text → read_digits n text ≡ (n, text)
unfolding read_digits
read_digits_end n [] e = refl
read_digits_end n (c ∷ text) (inl l) = ground arith
read_digits_end n (c ∷ text) (inr l) = ground arith

read_digits_one :
    (n d : ℕ) (text : List ℕ)
    → d < 10
    → read_digits n ((b'0' + d) ∷ text) ≡ read_digits (n * 10 + d) text
unfolding read_digits
read_digits_one n d text l = ground arith

-- Enough digits, read behind nothing, are the number, read behind which the rest follows.
read_digits-digits :
    (f n : ℕ) (text : List ℕ) → n < 10 ^ f → read_digits 0 (digits f n text) ≡ read_digits n text
unfolding digits
read_digits-digits zero n text l = ap (λ (x : ℕ). read_digits x text) (omega arith)
read_digits-digits (suc f) n text l = elim (Bool-cases (ltb n 10)) [
  | inl q ↦
      rw q (
        read_digits_one 0 n text (ltb→lt n 10 q) ∙ ap (λ (x : ℕ). read_digits x text) (omega arith))
  | inr q ↦ rw q (
      read_digits-digits f (n / 10) ((b'0' + n % 10) ∷ text) (omega (arith, pow-suc 10 f))
      ∙ read_digits_one (n / 10) (n % 10) text (omega arith)
      ∙ ap (λ (x : ℕ). read_digits x text) (omega arith))
]

digits-append : (f n : ℕ) (xs ys : List ℕ) → digits f n xs ++ ys ≡ digits f n (xs ++ ys)
unfolding digits
digits-append zero n xs ys = refl
digits-append (suc f) n xs ys = elim (Bool-cases (ltb n 10)) [
  | inl q ↦ rw q
  | inr q ↦ rw q (digits-append f (n / 10) ((b'0' + n % 10) ∷ xs) ys)
]

-- A printed 64-bit number is read back, and what follows it is left.
pub read_digits-put_u64 :
    (n : ℕ) (text : List ℕ) → IsU64 n → Ends text → read_digits 0 (put_u64 n ++ text) ≡ (n, text)
read_digits-put_u64 n text w e =
    ap (read_digits 0) (digits-append 20 n [] text)
    ∙ read_digits-digits 20 n text (omega arith)
    ∙ read_digits_end n text e

-- The number behind a known text, and what follows it.
unfoldable pub read_after : List ℕ → List ℕ → ℕ × List ℕ
read_after head text = read_digits 0 (drop (length head) text)

-- What a scraper has of a response.
pub record Scraped : Type 0 where
  pub content_length : ℕ
  pub received : ℕ
  pub active : ℕ
  pub failures : ℕ
  pub rtt : List ℕ

-- It reads each number where the text before it ends.
unfoldable pub scrape : List ℕ → Scraped
scrape text =
    let (content_length, after) = read_after length_head text in
    let body = drop (length length_tail) after in
    let (active, after_active) = read_after active_head body in
    let (failures, after_failures) = read_after failures_head after_active in
    record {
      content_length = content_length;
      received = length body;
      active = active;
      failures = failures;
      rtt = drop (length rtt_head) after_failures;
    }

abbrev after_failures : DoubleOps → MetricsTracker → List ℕ
after_failures d t = rtt_head ++ (d.print (avg_rtt d t) ++ codes "\n")

abbrev after_active : DoubleOps → MetricsTracker → List ℕ
after_active d t = failures_head ++ (put_u64 t.command_failures ++ after_failures d t)
