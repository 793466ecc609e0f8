-- ===== src/Common/Perms.antt =====
-- Lists in another order.
use mathlib.Core.Path.{◌≡◌, ap, refl, sym, subst}
use mathlib.Core.List.Permᴰ
use mathlib.Core.List.{List, [], ◌∷◌, ◌++◌, Permᴰ, append_assoc}

-- What the items of a list give, one after the other.
abbrev pub flat {ℓ κ} : {A : Type ℓ} {B : Type κ} → (A → List B) → List A → List B
flat f [] = []
flat f (x ∷ xs) = f x ++ flat f xs

pub append_comm-Perm {ℓ} : {A : Type ℓ} (xs ys : List A) → Permᴰ (xs ++ ys) (ys ++ xs)
append_comm-Perm [] ys = Permᴰ.symm (Permᴰ.append-nil ys)
append_comm-Perm (x ∷ xs) ys =
    Permᴰ.trans (Permᴰ.cons refl (append_comm-Perm xs ys)) (Permᴰ.symm (Permᴰ.middle x ys xs))

pub append-Perm {ℓ} :
    {A : Type ℓ} {xs xs' ys ys' : List A}
    → Permᴰ xs xs'
    → Permᴰ ys ys'
    → Permᴰ (xs ++ ys) (xs' ++ ys')
append-Perm {xs' = xs'} {ys = ys} p q =
    Permᴰ.trans (Permᴰ.append_right ys p) (Permᴰ.append_left xs' q)

pub eq→Perm {ℓ} : {A : Type ℓ} {xs ys : List A} → xs ≡ ys → Permᴰ xs ys
eq→Perm {xs = xs} e = subst (Permᴰ xs) e (Permᴰ.refl xs)

pub flat-Perm {ℓ κ} :
    {A : Type ℓ} {B : Type κ} (f : A → List B) {xs ys : List A}
    → Permᴰ xs ys
    → Permᴰ (flat f xs) (flat f ys)
flat-Perm f Permᴰ.nil = Permᴰ.nil
flat-Perm f (Permᴰ.cons e d) = append-Perm (eq→Perm (ap f e)) (flat-Perm f d)
flat-Perm f (Permᴰ.swap {a = a} {b = b} {a' = a'} {b' = b'} {l = l} e e') =
    Permᴰ.trans (eq→Perm (sym (append_assoc (f a) (f b) (flat f l)))) (
      Permᴰ.trans
        (Permᴰ.append_right (flat f l) (
          Permᴰ.trans (append_comm-Perm (f a) (f b))
            (append-Perm (eq→Perm (ap f e')) (eq→Perm (ap f e)))))
        (eq→Perm (append_assoc (f a') (f b') (flat f l))))
flat-Perm f (Permᴰ.trans d d') = Permᴰ.trans (flat-Perm f d) (flat-Perm f d')
