-- ===== src/Rules/Engine/Priority.antt =====
-- rule_engine.py: the first match wins, and it has the least priority.
use mathlib.Core.Path.{subst}
use frappe_dsc.Base.{
  ℕ, ◌≤◌, String, ◌≡◌, refl, Bool, true, ◌&&◌, Option, none, some, List, [], ◌∷◌, arith, leb, ap,
  ◌∙◌, Every, first_where, rows_where, inl, inr, Bool-cases, ◌⊎◌, ◌==◌, not, false,
}
use frappe_dsc.Base.Queries.{
  IsIn, IsIn-first_where, IsIn-rows_where_back, first_where-none, first_where_sound,
  rows_where-Every,
}
use frappe_dsc.Site.{
  Site, Db, Rule, TriggerEvent, ok, Action, pure, when, ◌>>=◌, ◌>>◌, Platform, Context,
}
use frappe_dsc.Rules.Conditions.{Floats, Document}
use frappe_dsc.Rules.Engine.{
  insert_rule, by_priority, is_rule_for, get_matching_rules, applies, run_rules, evaluate_rules,
  log_rule,
}
use frappe_dsc.Rules.Requesting.{create_signing_request}

abbrev IsSorted : List Rule → Type 0
IsSorted [] = Unit
IsSorted (r ∷ rest) = Every (λ q. r.priority ≤ q.priority) rest × IsSorted rest

module _ (Q : Rule → Type 0) where
  Every-insert_rule :
      (r : Rule) (rows : List Rule) → Q r → Every Q rows → Every Q (insert_rule r rows)
  unfolding insert_rule
  Every-insert_rule r [] h all = (h, tt)
  Every-insert_rule r (q ∷ rest) h all = ground (arith, Every-insert_rule r rest h all.1)

  Every-uninsert : (r : Rule) (rows : List Rule) → Every Q (insert_rule r rows) → Q r × Every Q rows
  unfolding insert_rule
  Every-uninsert r [] all = (all.0, tt)
  Every-uninsert r (q ∷ rest) all = ground (arith, Every-uninsert r rest)

  Every-by_priority : (rows : List Rule) → Every Q rows → Every Q (by_priority rows)
  unfolding by_priority
  Every-by_priority [] all = tt
  Every-by_priority (r ∷ rest) all =
      Every-insert_rule r (by_priority rest) all.0 (Every-by_priority rest all.1)

  Every-unsort : (rows : List Rule) → Every Q (by_priority rows) → Every Q rows
  unfolding by_priority
  Every-unsort [] all = tt
  Every-unsort (r ∷ rest) all =
      let parts = Every-uninsert r (by_priority rest) all in (parts.0, Every-unsort rest parts.1)

  Every-unfilter :
      (p : Rule → Bool) (rows : List Rule)
      → Every Q (rows_where p rows)
      → Every (λ q. p q ≡ true → Q q) rows
  unfolding rows_where
  Every-unfilter p [] all = tt
  Every-unfilter p (r ∷ rest) all = elim (Bool-cases (p r)) [
    | inl there ↦
        let kept : Every Q (r ∷ rows_where p rest) = rw there at all in
        (λ e. kept.0, Every-unfilter p rest kept.1)
    | inr not_there ↦
        let kept : Every Q (rows_where p rest) = rw not_there at all in
        (λ e. cc, Every-unfilter p rest kept)
  ]

Every-filter :
    (Q : Rule → Type 0) (p p' : Rule → Bool) (rows : List Rule)
    → Every (λ q. p q ≡ true → p' q ≡ true → Q q) rows
    → Every Q (rows_where (λ q. p q && p' q) rows)
unfolding rows_where
Every-filter Q p p' [] all = tt
Every-filter Q p p' (r ∷ rest) all = elim (Bool-cases (p r && p' r)) [
  | inl both ↦ rw both (all.0 (ground arith) (ground arith), Every-filter Q p p' rest all.1)
  | inr not_both ↦ rw not_both (Every-filter Q p p' rest all.1)
]

weaken :
    (a b : ℕ) (rows : List Rule)
    → a ≤ b
    → Every (λ q. b ≤ q.priority) rows
    → Every (λ q. a ≤ q.priority) rows
weaken a b [] h all = tt
weaken a b (q ∷ rest) h all = (omega arith, weaken a b rest h all.1)

insert_rule-IsSorted : (r : Rule) (rows : List Rule) → IsSorted rows → IsSorted (insert_rule r rows)
unfolding insert_rule
insert_rule-IsSorted r [] h = (tt, tt)
insert_rule-IsSorted r (q ∷ rest) h = elim (Bool-cases (leb r.priority q.priority)) [
  | inl small ↦ rw small ((ground arith, weaken r.priority q.priority rest (ground arith) h.0), h)
  | inr big ↦ rw big (
    Every-insert_rule (λ x. q.priority ≤ x.priority) r rest (ground arith) h.0,
    insert_rule-IsSorted r rest h.1,
  )
]

by_priority-IsSorted : (rows : List Rule) → IsSorted (by_priority rows)
unfolding by_priority
by_priority-IsSorted [] = tt
by_priority-IsSorted (r ∷ rest) =
    insert_rule-IsSorted r (by_priority rest) (by_priority-IsSorted rest)

ignore :
    (Q : Rule → Type 0) (p : Rule → Bool) (rows : List Rule)
    → Every Q rows
    → Every (λ q. p q ≡ true → Q q) rows
ignore Q p [] all = tt
ignore Q p (q ∷ rest) all = (λ e. all.0, ignore Q p rest all.1)

module _ (p : Rule → Bool) where
  first-least :
      (rows : List Rule) {r : Rule}
      → IsSorted rows
      → first_where p rows ≡ some r
      → Every (λ q. p q ≡ true → r.priority ≤ q.priority) rows
  unfolding first_where
  first-least [] sorted h = tt
  first-least (q ∷ rest) {r} sorted h = elim (Bool-cases (p q)) [
    | inl passes ↦
        let same : q ≡ r = ground arith in
        let all : (q.priority ≤ q.priority) × Every (λ x. q.priority ≤ x.priority) rest =
          (omega arith, sorted.0) in
        let these : Every (λ x. r.priority ≤ x.priority) (q ∷ rest) =
          subst (λ z. Every (λ x. z.priority ≤ x.priority) (q ∷ rest)) same all in
        ignore (λ x. r.priority ≤ x.priority) p (q ∷ rest) these
    | inr fails ↦
        let later : first_where p rest ≡ some r = rw fails at h in
        (λ e. cc, first-least rest sorted.1 later)
  ]

IsIn-insert_rule :
    (r : Rule) (rows : List Rule) (q : Rule) → IsIn q (insert_rule r rows) → IsIn q (r ∷ rows)
unfolding insert_rule
IsIn-insert_rule r [] q h = h
IsIn-insert_rule r (b ∷ rest) q h = elim (Bool-cases (leb r.priority b.priority)) [
  | inl small ↦ rw small at h
  | inr big ↦
      let later : IsIn q (b ∷ insert_rule r rest) = rw big at h in
      elim later [
        | inl here ↦ inr (inl here)
        | inr deep ↦ elim (IsIn-insert_rule r rest q deep) [
          | inl new ↦ inl new
          | inr old ↦ inr (inr old)
        ]
      ]
]

IsIn-by_priority : (rows : List Rule) (q : Rule) → IsIn q (by_priority rows) → IsIn q rows
unfolding by_priority
IsIn-by_priority [] q h = h
IsIn-by_priority (r ∷ rest) q h = elim (IsIn-insert_rule r (by_priority rest) q h) [
  | inl here ↦ inl here
  | inr later ↦ inr (IsIn-by_priority rest q later)
]

module _ (N : Floats) (doctype : String) (trigger : TriggerEvent) (doc : Document N) (d : Db) where
  least_of_first :
      {r : Rule}
      → first_where (applies N trigger doc) (get_matching_rules doctype trigger d) ≡ some r
      → (is_rule_for doctype trigger r ≡ true)
        × (applies N trigger doc r ≡ true)
        × Every
            (λ q. r.priority ≤ q.priority)
            (rows_where (λ q. is_rule_for doctype trigger q && applies N trigger doc q) d.rules)
  unfolding get_matching_rules
  least_of_first {r} h =
      let rows = rows_where (is_rule_for doctype trigger) d.rules in
      let sound : (applies N trigger doc r ≡ true) × (is_rule_for doctype trigger r ≡ true) =
        first_where_sound (applies N trigger doc) (λ q. is_rule_for doctype trigger q ≡ true)
          (by_priority rows)
          (Every-by_priority (λ q. is_rule_for doctype trigger q ≡ true) rows
            (rows_where-Every (is_rule_for doctype trigger) d.rules))
          h in
      (
        sound.1,
        sound.0,
        Every-filter (λ q. r.priority ≤ q.priority) (is_rule_for doctype trigger)
            (applies N trigger doc) d.rules
            (Every-unfilter (λ q. applies N trigger doc q ≡ true → r.priority ≤ q.priority)
              (is_rule_for doctype trigger) d.rules
              (Every-unsort (λ q. applies N trigger doc q ≡ true → r.priority ≤ q.priority) rows
                (first-least (applies N trigger doc) (by_priority rows) (by_priority-IsSorted rows)
                  h))),
      )

module _ (N : Floats) (P : Platform) (ctx : Context) (trigger : TriggerEvent)
    (doc : Document N) where
  -- What the first rule that applies does.
  fired : Option Rule → Action (Option String)
  unfolding run_rules
  fired none = pure none
  fired (some r) = run_rules N P ctx trigger doc (r ∷ [])

  run_rules-first :
      (rules : List Rule) (s : Site)
      → run_rules N P ctx trigger doc rules s ≡ fired (first_where (applies N trigger doc) rules) s
  unfolding run_rules first_where fired
  run_rules-first [] s = refl
  run_rules-first (r ∷ rest) s = elim (Bool-cases (applies N trigger doc r)) [
    | inl yes_applies ↦ rw (yes_applies, yes_applies)
    | inr no_match ↦ rw no_match (run_rules-first rest s)
  ]

  -- The request of a rule, the events about it, and its name as the answer.
  abbrev pub fires : Rule → Action (Option String)
  fires r = do
    request ← create_signing_request P ctx doc.doctype doc.name r
    when (not (request == "")) (log_rule N P ctx trigger r request)
    pure (some request)

  -- The rule is in the table, is for the DocType and the event, applies to the document, and has the
  -- least priority of all such rules.
  abbrev pub IsChosen : Site → Rule → Type 0
  IsChosen s r =
      IsIn r s.db.rules
      × (is_rule_for doc.doctype trigger r ≡ true)
      × (applies N trigger doc r ≡ true)
      × Every (λ q. r.priority ≤ q.priority)
          (rows_where (λ q. is_rule_for doc.doctype trigger q && applies N trigger doc q)
            s.db.rules)

  fired-fires :
      (r : Rule) (s : Site) → applies N trigger doc r ≡ true → fired (some r) s ≡ fires r s
  unfolding fired run_rules
  fired-fires r s applied = rw applied refl

  -- The evaluation of the rules for a trigger makes or finds the request of one rule and of no other,
  -- which is for the DocType of the document and the trigger, applies to the document, and has the
  -- least priority of all such rules; or there is no such rule, and then the site stays as it was.
  pub least_priority_wins :
      (s : Site)
      → (Every
            (λ q. is_rule_for doc.doctype trigger q ≡ true → applies N trigger doc q ≡ false)
            s.db.rules
          × (evaluate_rules N P ctx trigger doc s ≡ (ok none, s)))
        ⊎ ((r : Rule) × IsChosen s r × (evaluate_rules N P ctx trigger doc s ≡ fires r s))
  unfolding evaluate_rules fired get_matching_rules
  least_priority_wins s = by_first (first_where (applies N trigger doc) sorted) refl
    where
      kept : List Rule
      kept = rows_where (is_rule_for doc.doctype trigger) s.db.rules

      sorted : List Rule
      sorted = by_priority kept

      by_first :
          (o : Option Rule)
          → first_where (applies N trigger doc) sorted ≡ o
          → (Every
                (λ q. is_rule_for doc.doctype trigger q ≡ true → applies N trigger doc q ≡ false)
                s.db.rules
              × (evaluate_rules N P ctx trigger doc s ≡ (ok none, s)))
            ⊎ ((r : Rule) × IsChosen s r × (evaluate_rules N P ctx trigger doc s ≡ fires r s))
      by_first none h = inl (
        Every-unfilter (λ q. applies N trigger doc q ≡ false) (is_rule_for doc.doctype trigger)
            s.db.rules
            (Every-unsort (λ q. applies N trigger doc q ≡ false) kept
              (first_where-none (applies N trigger doc) sorted h)),
        run_rules-first sorted s ∙ ap (λ o. fired o s) h,
      )
      by_first (some r) h =
          let (rule_for, applied, least) =
            least_of_first N doc.doctype trigger doc s.db {r = r} h in
          inr (
            r,
            (
              IsIn-rows_where_back (is_rule_for doc.doctype trigger) s.db.rules r
                  (IsIn-by_priority kept r (IsIn-first_where (applies N trigger doc) sorted h)),
              rule_for,
              applied,
              least,
            ),
            run_rules-first sorted s ∙ ap (λ o. fired o s) h ∙ fired-fires r s applied,
          )
