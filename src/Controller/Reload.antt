-- ===== src/Controller/Reload.antt =====
-- The policy file, read and read again.

use mathlib.Core.List.{map}
use stradvision.Common.{
  ℕ, List, Option, [], ap, arith, if_both, inl, inr, le→ltb, lt→ltb, none, refl, some, sym, true,
  ◌&&◌, ◌++◌, ◌<◌, ◌∙◌, ◌∷◌, ◌≡◌, ◌⊎◌,
}
use stradvision.Controller.{Controller}
use stradvision.Controller.Config.{
  PolicyFile, RawPolicy, check_policy_update, is_newer, is_true, load_policies, to_policies,
  to_policy,
}
use stradvision.Message.{MessageType}

-- A file that is there, was written at `time`, and has these entries; and one that can be read.
abbrev pub file_of : ℕ → List (Option RawPolicy) → PolicyFile
file_of time entries = record {
  is_there = some true;
  write_time = some time;
  entries = some entries;
}

abbrev readable : ℕ → List RawPolicy → PolicyFile
readable time raws = file_of time (map some raws)

to_policies-map :
    (unset : MessageType) (raws : List RawPolicy)
    → to_policies unset (map some raws) ≡ some (map (to_policy unset) raws)
unfolding to_policies
to_policies-map unset [] = refl
to_policies-map unset (raw ∷ raws) = rw (to_policies-map unset raws)

-- A readable file that was written later than the one that is in force: a check replaces the policies by
-- the file's, all of them and in its order, keeps its time, and changes nothing else; and a further
-- check of the same file changes nothing.
newer_file_replaces :
    (unset : MessageType) (time : ℕ) (raws : List RawPolicy) (c : Controller)
    → c.last_policy_file_time < time
    → let file = readable time raws in
      let c' = check_policy_update unset file c in
      (c' ≡ record c { policies = map (to_policy unset) raws; last_policy_file_time = time })
      × (check_policy_update unset file c' ≡ c')
newer_file_replaces unset time raws c l = (replaced, ap again replaced ∙ quiet ∙ sym replaced)
  where
    file : PolicyFile
    file = readable time raws

    now_in_force : Controller
    now_in_force = record c { policies = map (to_policy unset) raws; last_policy_file_time = time }

    again : Controller → Controller
    again x = check_policy_update unset file x

    replaced : check_policy_update unset file c ≡ now_in_force
    replaced =
        unfold check_policy_update load_policies in
        rw (lt→ltb c.last_policy_file_time time l, to_policies-map unset raws)

    quiet : again now_in_force ≡ now_in_force
    quiet = unfold check_policy_update in rw (le→ltb time time (omega arith))

to_policies_bad :
    (unset : MessageType) (before after : List (Option RawPolicy))
    → to_policies unset (before ++ none ∷ after) ≡ none
unfolding to_policies
to_policies_bad unset [] after = refl
to_policies_bad unset (none ∷ before) after = refl
to_policies_bad unset (some raw ∷ before) after = rw (to_policies_bad unset before after)

-- A file with an entry that cannot be read: none of its entries is taken, the good ones before it neither,
-- and the controller keeps the policies and the time that it had.
bad_entry_keeps :
    (unset : MessageType) (file : PolicyFile) (before after : List (Option RawPolicy))
    (c : Controller)
    → file.entries ≡ some (before ++ none ∷ after)
    → check_policy_update unset file c ≡ c
unfolding check_policy_update load_policies
bad_entry_keeps unset file before after c h =
    if_both (λ x. x ≡ c) (is_true file.is_there && is_newer file.write_time c.last_policy_file_time)
      (if_both (λ x. x ≡ c) (is_true file.is_there) (rw (h, to_policies_bad unset before after))
        refl)
      refl

-- The entries of a file are all readable, or there is a first one that is not.
sorted_out :
    (entries : List (Option RawPolicy))
    → ((raws : List RawPolicy) × (entries ≡ map some raws))
      ⊎ ((before : List (Option RawPolicy)) × (after : List (Option RawPolicy)) × (entries
            ≡ before ++ none ∷ after))
sorted_out [] = inl ([], refl)
sorted_out (none ∷ entries) = inr ([], entries, refl)
sorted_out (some raw ∷ entries) = elim (sorted_out entries) [
  | inl (raws, e) ↦ inl (raw ∷ raws, ap (λ xs. some raw ∷ xs) e)
  | inr (before, after, e) ↦ inr (some raw ∷ before, after, ap (λ xs. some raw ∷ xs) e)
]

-- A policy file that is there, was written later than the one that is in force, and has these entries, is
-- taken as a whole or not at all. If every entry can be read, a check replaces the policies by the file's
-- in its order, keeps its time and changes nothing else, and a further check of the file changes nothing;
-- otherwise some entry cannot be read, and the check changes nothing.
pub reload_whole :
    (unset : MessageType) (time : ℕ) (entries : List (Option RawPolicy)) (c : Controller)
    → c.last_policy_file_time < time
    → let file = file_of time entries in
      let c' = check_policy_update unset file c in
      ((raws : List RawPolicy) × (entries ≡ map some raws)
        × (c' ≡ record c { policies = map (to_policy unset) raws; last_policy_file_time = time })
        × (check_policy_update unset file c' ≡ c'))
      ⊎ ((before : List (Option RawPolicy)) × (after : List (Option RawPolicy)) × (entries
            ≡ before ++ none ∷ after)
          × (c' ≡ c))
reload_whole unset time entries c l = elim (sorted_out entries) [
  | inl (raws, e) ↦
      let (replaced, quiet) = newer_file_replaces unset time raws c l in
      inl (raws, e, rw e replaced, rw e quiet)
  | inr (before, after, e) ↦
      inr
        (before, after, e, bad_entry_keeps unset (file_of time entries) before after c (ap some e))
]
