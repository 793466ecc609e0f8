-- ===== src/Store/History.antt =====
-- The state store over time.
use stradvision.Common.{
  ℕ, ==_iff, Bool, Bool-cases, List, Option, [], ap, arith, false, if◌then◌else◌, inl, inr, length,
  ltb, ltb→lt, ne→==, none, refl, some, suc, sym, true, ◌+◌, ◌==◌, ◌∙◌, ◌∷◌, ◌≡◌, ◌≤◌,
}
use stradvision.Dict.{Sorted, find, put}
use stradvision.Dict.Laws.{find-put, find_below, put-Sorted}
use stradvision.Payload.{StatePayload}
use stradvision.Store.{
  FloatOps, StateStore, get_agent_state, get_aggregate_load, or_no_state, total_load,
  update_agent_state,
}

-- The reports so far, the oldest first: the agent, what it says, and the time stamp.
abbrev pub Reports : Type 0
Reports = List (ℕ × StatePayload × ℕ)

unfoldable pub store_run : Reports → StateStore → StateStore
store_run [] s = s
store_run ((id, p, t) ∷ rs) s = store_run rs (update_agent_state id p t s)

abbrev or_before : Option StatePayload → Option StatePayload → Option StatePayload
or_before none old = old
or_before (some p) old = some p

-- An agent's last report.
unfoldable pub last_report : ℕ → Reports → Option StatePayload
last_report id [] = none
last_report id ((i, p, t) ∷ rs) = or_before (last_report id rs) (if i == id then some p else none)

abbrev is_known : Option StatePayload → Bool
is_known none = false
is_known (some p) = true

abbrev is_among : ℕ → List ℕ → Bool
is_among k [] = false
is_among k (j ∷ js) = if j == k then true else is_among k js

-- How many agents report that are not among those seen before.
unfoldable pub reporters : List ℕ → Reports → ℕ
reporters seen [] = 0
reporters seen ((i, p, t) ∷ rs) =
    if is_among i seen then reporters seen rs else suc (reporters (i ∷ seen) rs)

or_before_assoc :
    (a b c : Option StatePayload) → or_before a (or_before b c) ≡ or_before (or_before a b) c
or_before_assoc none b c = refl
or_before_assoc (some p) b c = refl

either :
    (b : Bool) (p : StatePayload) (old : Option StatePayload)
    → (if b then some p else old) ≡ or_before (if b then some p else none) old
either true p old = refl
either false p old = refl

find-store_run :
    (rs : Reports) (s : StateStore) (id : ℕ)
    → find id (store_run rs s) ≡ or_before (last_report id rs) (find id s)
unfolding store_run last_report update_agent_state
find-store_run [] s id = refl
find-store_run ((i, p, t) ∷ rs) s id =
    find-store_run rs (put i p s) id
    ∙ ap (or_before (last_report id rs)) (find-put i id p s ∙ either (i == id) p (find id s))
    ∙ or_before_assoc (last_report id rs) _ (find id s)

choose : (b : Bool) (n : ℕ) → suc (if b then n else suc n) ≡ (if b then suc n else suc (suc n))
choose true n = refl
choose false n = refl

length-put :
    (n k : ℕ) (p : StatePayload) (s : StateStore)
    → Sorted n s
    → length (put k p s) ≡ (if is_known (find k s) then length s else suc (length s))
unfolding put find
length-put n k p [] h = refl
length-put n k p ((j, q) ∷ s) h = elim (Bool-cases (ltb k j)) [
  | inl e ↦
      let absent = find_below (suc j) k s h.1 (omega (arith, ltb→lt k j e)) in
      rw (e, ne→== j k (λ q'. omega (arith, q', ltb→lt k j e)), absent) refl
  | inr e ↦ elim (Bool-cases (j == k)) [
    | inl g ↦ rw (e, g) refl
    | inr g ↦
        rw (e, g) (ap suc (length-put (suc j) k p s h.1) ∙ choose (is_known (find k s)) (length s))
  ]
]

-- The store has an entry for exactly the agents that were seen.
abbrev Knows : List ℕ → StateStore → Type 0
Knows seen s = (k : ℕ) → is_known (find k s) ≡ is_among k seen

Knows-new :
    (i : ℕ) (p : StatePayload) (seen : List ℕ) (s : StateStore)
    → Knows seen s
    → Knows (i ∷ seen) (put i p s)
Knows-new i p seen s h j =
    ap is_known (find-put i j p s)
    ∙ (elim (Bool-cases (i == j)) [ inl e ↦ rw e refl | inr e ↦ rw e (h j) ])

Knows-seen :
    (i : ℕ) (p : StatePayload) (seen : List ℕ) (s : StateStore)
    → is_among i seen ≡ true
    → Knows seen s
    → Knows seen (put i p s)
Knows-seen i p seen s e h j = ap is_known (find-put i j p s) ∙ (elim (Bool-cases (i == j)) [
  | inl g ↦ rw g (sym (ap (λ x. is_among x seen) (sym ((==_iff i j).0 g)) ∙ e))
  | inr g ↦ rw g (h j)
])

length-store_run :
    (rs : Reports) (seen : List ℕ) (s : StateStore)
    → Sorted 0 s
    → Knows seen s
    → length (store_run rs s) ≡ reporters seen rs + length s
unfolding store_run reporters update_agent_state
length-store_run [] seen s h k = omega arith
length-store_run ((i, p, t) ∷ rs) seen s h k =
    let put_length = length-put 0 i p s h in
    let sorted = put-Sorted 0 i p s (omega arith) h in
    elim (Bool-cases (is_among i seen)) [
      | inl e ↦
          let rest = length-store_run rs seen (put i p s) sorted (Knows-seen i p seen s e k) in
          let kept : length (put i p s) ≡ length s = put_length ∙ rw (k i, e) refl in
          rw e (omega (arith, rest, kept))
      | inr e ↦
          let rest = length-store_run rs (i ∷ seen) (put i p s) sorted (Knows-new i p seen s k) in
          let grown : length (put i p s) ≡ suc (length s) = put_length ∙ rw (k i, e) refl in
          rw e (omega (arith, rest, grown))
    ]

aggregate_lem :
    (f : FloatOps) (s : StateStore)
    → 1 ≤ length s
    → get_aggregate_load f s ≡ f.div_count (total_load f 0 s) (length s)
unfolding get_aggregate_load
aggregate_lem f [] h = absurd (omega arith)
aggregate_lem f (x ∷ s) h = refl

before_nothing : (r : Option StatePayload) → or_before r none ≡ r
before_nothing none = refl
before_nothing (some p) = refl

some_reporter : (first : ℕ × StatePayload × ℕ) (rs : Reports) → 1 ≤ reporters [] (first ∷ rs)
unfolding reporters
some_reporter first rs = omega arith

-- After one or more reports to an empty store: the state of each agent is what its last report says, or
-- all zeros if it never reported; and the average load divides the sum over the store by the number of
-- the agents that reported, each counted once.
pub store_reports :
    (f : FloatOps) (first : ℕ × StatePayload × ℕ) (rs : Reports) (id : ℕ)
    → let s = store_run (first ∷ rs) [] in
      let n = reporters [] (first ∷ rs) in
      (get_agent_state id s ≡ or_no_state (last_report id (first ∷ rs)))
      × (get_aggregate_load f s ≡ f.div_count (total_load f 0 s) n)
unfolding get_agent_state find
store_reports f first rs id = (
  ap or_no_state (find-store_run (first ∷ rs) [] id ∙ before_nothing (last_report id (first ∷ rs))),
  aggregate_lem f (store_run (first ∷ rs) []) (omega (arith, count, some_reporter first rs))
      ∙ ap (f.div_count (total_load f 0 (store_run (first ∷ rs) []))) (count ∙ omega arith),
)
  where
    count :
        length (store_run (first ∷ rs) [])
        ≡ reporters [] (first ∷ rs) + length {A = ℕ × StatePayload} []
    count = length-store_run (first ∷ rs) [] [] tt (λ k. refl)
