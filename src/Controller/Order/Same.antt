-- ===== src/Controller/Order/Same.antt =====
-- Controllers that differ in the order of the sessions and of the pool alone, and the policy file.
use mathlib.Core.Path.{subst}
use mathlib.Core.List.{Permᴰ}
use stradvision.Common.{ℕ, Bool-cases, List, Option, ap, inl, inr, none, refl, some, sym, ◌≡◌}
use stradvision.Controller.{Controller, ControllerCall, Policy, Sessions}
use stradvision.Controller.Config.{
  PolicyFile, check_policy_update, is_newer, is_true, load_policies, read_entries, set_policies,
}
use stradvision.Message.{MessageType}

abbrev pub reordered : Sessions → List ℕ → Controller → Controller
reordered xs pool c = record c { sessions = xs; messages = record c.messages { pool = pool } }

-- The same controller, but for the order of the sessions and of the pool.
pub record Alike (c c' : Controller) : Type 0 where
  pub sessions : Permᴰ c.sessions c'.sessions
  pub pool : Permᴰ c.messages.pool c'.messages.pool
  pub rest : c' ≡ reordered c'.sessions c'.messages.pool c

-- The same with the calls in another order.
abbrev pub AreAlike : Controller × List ControllerCall → Controller × List ControllerCall → Type 0
AreAlike r r' = Alike r.0 r'.0 × Permᴰ r.1 r'.1

pub to_reordered :
    (P : Controller → Type 0) (c c' : Controller)
    → Alike c c'
    → ((xs : Sessions) (pool : List ℕ)
        → Permᴰ c.sessions xs
        → Permᴰ c.messages.pool pool
        → P (reordered xs pool c))
    → P c'
to_reordered P c c' a f = subst P (sym a.rest) (f c'.sessions c'.messages.pool a.sessions a.pool)

set_policies-Alike :
    (time : Option ℕ) (read : Option (List Policy)) (c c' : Controller)
    → Alike c c'
    → Alike (set_policies time read c) (set_policies time read c')
set_policies-Alike time none c c' a = a
set_policies-Alike none (some ps) c c' a = record {
  sessions = a.sessions;
  pool = a.pool;
  rest = ap (λ (x : Controller). record x { policies = ps }) a.rest;
}
set_policies-Alike (some t) (some ps) c c' a = record {
  sessions = a.sessions;
  pool = a.pool;
  rest = ap (λ (x : Controller). record x { policies = ps; last_policy_file_time = t }) a.rest;
}

pub update-Alike :
    (unset : MessageType) (file : PolicyFile) (c c' : Controller)
    → Alike c c'
    → Alike (check_policy_update unset file c) (check_policy_update unset file c')
unfolding check_policy_update load_policies
update-Alike unset file c c' a =
    to_reordered (λ x. Alike (check_policy_update unset file c) (check_policy_update unset file x))
      c c' a
      (λ xs pool p q.
        let same : Alike c (reordered xs pool c) = record { sessions = p; pool = q; rest = refl } in
        elim (Bool-cases (is_true file.is_there)) [
          | inl e ↦ rw e (elim (Bool-cases (is_newer file.write_time c.last_policy_file_time)) [
            | inl n ↦
                rw n (set_policies-Alike file.write_time (read_entries unset file.entries) c _ same)
            | inr n ↦ rw n same
          ])
          | inr e ↦ rw e same
        ])
