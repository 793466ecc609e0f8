-- ===== src/Controller/Order/Made.antt =====
-- The command loop of the health check, session by session.
use mathlib.Core.Path.{fun_ext}
use mathlib.Core.List.{Permᴰ}
use stradvision.Common.{
  ℕ, ==_iff, Bool, Bool-cases, List, [], ap, false, if◌then◌else◌, inl, inr, refl, sym, true, ◌++◌,
  ◌==◌, ◌∙◌, ◌∷◌, ◌≡◌,
}
use stradvision.Common.Perms.{flat, flat-Perm}
use stradvision.Controller.{ControllerCall, Entry, Sessions, healthy_entry, on_link}
use stradvision.Controller.Health.{Commanded, command_all, command_entry}
use stradvision.Controller.Making.{command_entry_lem, commanded_entry, made_message}
use stradvision.Message.{Heap, store}
use stradvision.Session.{sends}

module _ (now : ℕ) (is_open : ℕ → Bool) (mode id : ℕ) where
  -- What a message object holds after a command, or still before it.
  made_at : Bool → ℕ → Heap → Heap
  made_at healthy p heap = if healthy then store heap p (made_message mode id (heap p)) else heap

  abbrev AsMade : Heap → Heap → Type 0
  AsMade heap heap' = (p : ℕ) → made_message mode id (heap p) ≡ made_message mode id (heap' p)

  made_at-AsMade :
      (healthy : Bool) (p : ℕ) (heap heap' : Heap)
      → AsMade heap heap'
      → AsMade heap (made_at healthy p heap')
  unfolding made_at
  made_at-AsMade true p heap heap' h q = elim (Bool-cases (p == q)) [
    | inl e ↦ rw e (rw ((==_iff p q).0 e) (h q))
    | inr e ↦ rw e (h q)
  ]
  made_at-AsMade false p heap heap' h q = h q

  made_at_comm :
      (b c : Bool) (p q : ℕ) (heap : Heap)
      → made_at b p (made_at c q heap) ≡ made_at c q (made_at b p heap)
  unfolding made_at
  made_at_comm true true p q heap = fun_ext (λ x. elim (Bool-cases (p == x)) [
    | inl e ↦ elim (Bool-cases (q == x)) [
      | inl f ↦ rw ((==_iff p x).0 e ∙ sym ((==_iff q x).0 f)) refl
      | inr f ↦ rw (e, f, ap (λ y. q == y) ((==_iff p x).0 e) ∙ f) refl
    ]
    | inr e ↦ elim (Bool-cases (q == x)) [
      | inl f ↦ rw (e, f, ap (λ y. p == y) ((==_iff q x).0 f) ∙ e) refl
      | inr f ↦ rw (e, f) refl
    ]
  ])
  made_at_comm true false p q heap = refl
  made_at_comm false true p q heap = refl
  made_at_comm false false p q heap = refl

  one_made : Entry → Heap → Heap
  one_made e = made_at (healthy_entry now is_open e) e.session.msg_set_mode

  one_made_comm :
      (e e' : Entry) (heap : Heap) → one_made e (one_made e' heap) ≡ one_made e' (one_made e heap)
  unfolding one_made
  one_made_comm e e' heap =
      made_at_comm (healthy_entry now is_open e) (healthy_entry now is_open e')
        e.session.msg_set_mode e'.session.msg_set_mode heap

  all_made : Sessions → Heap → Heap
  all_made [] heap = heap
  all_made (x ∷ xs) heap = all_made xs (one_made x.1 heap)

  all_made-Perm :
      (xs ys : Sessions) (heap : Heap) → Permᴰ xs ys → all_made xs heap ≡ all_made ys heap
  unfolding all_made
  all_made-Perm _ _ t Permᴰ.nil = refl
  all_made-Perm _ _ t (Permᴰ.cons {b = b} {l₁ = l} {l₂ = l'} e d) =
      ap (λ x. all_made l (one_made x.1 t)) e ∙ all_made-Perm l l' (one_made b.1 t) d
  all_made-Perm _ _ t (Permᴰ.swap {a = a} {b = b} {b' = b'} {l = l} e e') = ap (all_made l) (
      one_made_comm b.1 a.1 t
      ∙ ap (λ x. one_made x.1 (one_made b.1 t)) e
      ∙ ap (λ x. one_made b'.1 (one_made x.1 t)) e')
  all_made-Perm xs zs t (Permᴰ.trans {l₂ = ys} d d') =
      all_made-Perm xs ys t d ∙ all_made-Perm ys zs t d'

  after_command : Entry → Entry
  after_command e = if healthy_entry now is_open e then commanded_entry now mode id e else e

  one_commanded : ℕ × Entry → Sessions
  one_commanded x = (x.0, after_command x.1) ∷ []

  called : Heap → Entry → List ControllerCall
  called heap e =
      if healthy_entry now is_open e
      then on_link e.conn (sends (made_message mode id (heap e.session.msg_set_mode))) ∷ []
      else []

  command_entry-parts :
      (e : Entry) (first heap : Heap)
      → AsMade first heap
      → command_entry now is_open mode id e heap
        ≡ (after_command e, called first e, one_made e heap)
  unfolding after_command called one_made made_at
  command_entry-parts e first heap h = elim (Bool-cases (healthy_entry now is_open e)) [
    | inl g ↦
        command_entry_lem now mode id is_open e heap g ∙ (rw (g, h e.session.msg_set_mode) refl)
    | inr g ↦ unfold command_entry in rw g refl
  ]

  command_all-parts :
      (xs : Sessions) (first heap : Heap)
      → AsMade first heap
      → command_all now is_open mode id xs heap ≡ record {
        entries = flat one_commanded xs;
        calls = flat (λ x. called first x.1) xs;
        heap = all_made xs heap;
      }
  unfolding command_all all_made one_commanded one_made
  command_all-parts [] first heap h = refl
  command_all-parts ((k, e) ∷ xs) first heap h =
      let p = e.session.msg_set_mode in
      let healthy = healthy_entry now is_open e in
      ap
        (λ (r : Entry × List ControllerCall × Heap).
          let rest = command_all now is_open mode id xs r.2 in
          record rest { entries = (k, r.0) ∷ rest.entries; calls = r.1 ++ rest.calls })
        (command_entry-parts e first heap h)
      ∙ ap
          (λ (rest : Commanded). record rest {
            entries = (k, after_command e) ∷ rest.entries;
            calls = called first e ++ rest.calls;
          })
          (command_all-parts xs first (one_made e heap) (made_at-AsMade healthy p first heap h))

  -- The sessions in another order.
  pub command_all-Perm :
      (xs ys : Sessions) (heap : Heap)
      → Permᴰ xs ys
      → let a = command_all now is_open mode id xs heap in
        let b = command_all now is_open mode id ys heap in
        Permᴰ a.entries b.entries × Permᴰ a.calls b.calls × (a.heap ≡ b.heap)
  command_all-Perm xs ys heap p =
      rw (command_all-parts xs heap heap same, command_all-parts ys heap heap same)
        (flat-Perm one_commanded p, flat-Perm (λ x. called heap x.1) p, all_made-Perm xs ys heap p)
    where
      same : AsMade heap heap
      same q = refl
