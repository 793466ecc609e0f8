-- ===== src/Parser/Changes.antt =====
-- Frames with a few changed bytes, and their checksums.
use mathlib.Core.Path.{subst}
use stradvision.Bytes.Sums.{bytes_u32}
use stradvision.Common.{
  ℕ, All, IsByte, IsU32, List, [], ap, append_assoc, arith, drop, inl, inr, length, length-append,
  length-take, refl, sym, take, take-append-drop, ◌++◌, ◌+◌, ◌-◌, ◌∙◌, ◌∷◌, ◌≡◌, ◌≢◌, ◌≤◌, ◌⊎◌,
}
use stradvision.Crc.Fold.{crc32, crc32-lt}
use stradvision.Crc.Detects.{crc32-detects}
use stradvision.Message.{Header}
use stradvision.Parser.Frame.{body, frame}

append_split : (u u' v v' : List ℕ) → u ++ v ≡ u' ++ v' → length u ≡ length u' → (u ≡ u') × (v ≡ v')
append_split [] [] v v' e l = (refl, e)
append_split [] (_ ∷ _) v v' e l = absurd (omega arith)
append_split (_ ∷ _) [] v v' e l = absurd (omega arith)
append_split (x ∷ u) (x' ∷ u') v v' e l =
    let (p, q) = append_split u u' v v' (ground arith) (omega arith) in (ground (arith, p), q)

pub All-split : (xs ys : List ℕ) → All IsByte (xs ++ ys) → All IsByte xs × All IsByte ys
All-split [] ys h = (tt, h)
All-split (x ∷ xs) ys h = let (p, q) = All-split xs ys h.1 in ((h.0, p), q)

bytes_u32-injective : (v w : ℕ) → IsU32 v → IsU32 w → bytes_u32 v ≡ bytes_u32 w → v ≡ w
bytes_u32-injective v w hv hw e = ground arith

-- The window lies in front of the last four bytes, or among them.
abbrev pub IsOnOneSide : List ℕ → List ℕ → Type 0
IsOnOneSide us ys = (4 ≤ length ys) ⊎ (length us + length ys ≤ 4)

-- A run of bytes, cut in front of its last four, when the window lies in front of the cut.
cut_behind :
    (xs us ys front : List ℕ) (crc : ℕ)
    → xs ++ (us ++ ys) ≡ front ++ bytes_u32 crc
    → 4 ≤ length ys
    → let n = length ys - 4 in (xs ++ (us ++ take n ys) ≡ front) × (drop n ys ≡ bytes_u32 crc)
cut_behind xs us ys front crc e l =
    append_split (xs ++ (us ++ take n ys)) front (drop n ys) (bytes_u32 crc)
      (append_assoc xs (us ++ take n ys) (drop n ys)
        ∙ ap (xs ++◌) (append_assoc us (take n ys) (drop n ys))
        ∙ ap (λ (t : List ℕ). xs ++ (us ++ t)) (take-append-drop n ys)
        ∙ e)
      (omega (
        arith,
        length-append xs (us ++ take n ys),
        length-append us (take n ys),
        length-take n ys (omega arith),
        ap length e,
        length-append xs (us ++ ys),
        length-append us ys,
        length-append front (bytes_u32 crc),
      ))
  where
    n : ℕ
    n = length ys - 4

-- The same when the window lies behind the cut.
cut_ahead :
    (xs us ys front : List ℕ) (crc : ℕ)
    → xs ++ (us ++ ys) ≡ front ++ bytes_u32 crc
    → length us + length ys ≤ 4
    → take (length front) xs ≡ front
cut_ahead xs us ys front crc e l =
    (append_split (take n xs) front (drop n xs ++ (us ++ ys)) (bytes_u32 crc)
      (sym (append_assoc (take n xs) (drop n xs) (us ++ ys))
        ∙ ap (λ (t : List ℕ). t ++ (us ++ ys)) (take-append-drop n xs)
        ∙ e)
      (length-take n xs (
        omega (
          arith,
          ap length e,
          length-append xs (us ++ ys),
          length-append us ys,
          length-append front (bytes_u32 crc),
        )))).0
  where
    n : ℕ
    n = length front

-- What stands between two equal parts.
window_of :
    (xs us vs ys : List ℕ) → xs ++ (us ++ ys) ≡ xs ++ (vs ++ ys) → length us ≡ length vs → us ≡ vs
window_of xs us vs ys e l =
    (append_split us vs ys ys (append_split xs xs (us ++ ys) (vs ++ ys) e refl).1 l).0

-- Two frames of one size that differ within a window of at most four bytes, on one side of the checksum,
-- do not both carry the right checksum.
pub one_good_checksum :
    (h h' : Header) (p p' xs us vs ys : List ℕ)
    → All IsByte (body h p)
    → All IsByte vs
    → length us ≡ length vs
    → length us ≤ 4
    → us ≢ vs
    → IsOnOneSide us ys
    → length (body h p) ≡ length (body h' p')
    → xs ++ (us ++ ys) ≡ frame h p (crc32 (body h p))
    → xs ++ (vs ++ ys) ≡ frame h' p' (crc32 (body h' p'))
    → ⊥
one_good_checksum h h' p p' xs us vs ys hp hv same few ne (inl l) size e e' =
    let n = length ys - 4 in
    let (q, r) = cut_behind xs us ys (body h p) (crc32 (body h p)) e l in
    let (q', r') = cut_behind xs vs ys (body h' p') (crc32 (body h' p')) e' l in
    let (hx, rest) = All-split xs (us ++ take n ys) (subst (All IsByte) (sym q) hp) in
    let (hu, hz) = All-split us (take n ys) rest in
    crc32-detects xs us vs (take n ys) hx hu hv hz same few ne (
      ap crc32 q
      ∙ bytes_u32-injective _ _ (crc32-lt (body h p)) (crc32-lt (body h' p')) (sym r ∙ r')
      ∙ ap crc32 (sym q'))
one_good_checksum h h' p p' xs us vs ys hp hv same few ne (inr l) size e e' =
    let q = cut_ahead xs us ys (body h p) (crc32 (body h p)) e l in
    let q' = cut_ahead xs vs ys (body h' p') (crc32 (body h' p')) e' (omega arith) in
    let bodies : body h p ≡ body h' p' = sym q ∙ ap (λ (t : ℕ). take t xs) size ∙ q' in
    ne (
      window_of xs us vs ys (e ∙ ap (λ (t : List ℕ). t ++ bytes_u32 (crc32 t)) bodies ∙ sym e')
        same)
