-- ===== src/Governance/Rules.antt =====
-- The rules of config/schema.rs: the first rule that matches decides, and when the service needs an
-- approval engine.
use thoughtgate.Base.{
  String, Bool, true, false, none, some, List, [], ◌∷◌, ◌++◌, ◌≡◌, ◌⊎◌, inl, inr, refl, ap, All,
  any, arith, Bool-cases, ◌∙◌, ◌&&◌,
}
use thoughtgate.Governance.Schema.{
  Glob, Rule, Governance, Config, MatchResult, Action, filter_matches, pattern_matches,
  evaluate_rules, evaluate, is_approval, requires_approval_engine,
}

-- What `evaluate` answers for a rule, and where no rule matches.
abbrev pub answer_of {ℓ} : {P : Type ℓ} → Rule P → MatchResult
answer_of r = record {
  action = r.action;
  policy_id = r.policy_id;
  approval_workflow = r.approval;
  matched_rule = some r.pattern;
}

abbrev pub default_answer : Action → MatchResult
default_answer a = record {
  action = a;
  policy_id = none;
  approval_workflow = none;
  matched_rule = none;
}

module _ {ℓ} {P : Type ℓ} (g : Glob P) where
  -- A rule matches a call when its filter admits the source and its pattern the tool.
  unfoldable pub rule_matches : String → String → Rule P → Bool
  rule_matches tool_name source_id r =
      filter_matches g r.source source_id
      && pattern_matches g r.compiled_pattern r.pattern tool_name

  -- The rule that decides, with the rules before it, none of which matches.
  pub record FirstMatch (tool_name source_id : String) (l : List (Rule P)) : Type ℓ where
    pub before : List (Rule P)
    pub rule : Rule P
    pub after : List (Rule P)
    pub split_at : l ≡ before ++ rule ∷ after
    pub skipped : All (λ r. rule_matches tool_name source_id r ≡ false) before
    pub matched : rule_matches tool_name source_id rule ≡ true

  evaluate_rules-skip :
      (r : Rule P) (l : List (Rule P)) (d : Action) (t s : String)
      → rule_matches t s r ≡ false
      → evaluate_rules g (r ∷ l) d t s ≡ evaluate_rules g l d t s
  unfolding evaluate_rules rule_matches
  evaluate_rules-skip r l d t s h = ground arith

  evaluate_rules-match :
      (r : Rule P) (l : List (Rule P)) (d : Action) (t s : String)
      → rule_matches t s r ≡ true
      → evaluate_rules g (r ∷ l) d t s ≡ answer_of r
  unfolding evaluate_rules rule_matches
  evaluate_rules-match r l d t s h = ground arith

  abbrev extend :
      (t s : String) (r : Rule P) (l : List (Rule P))
      → rule_matches t s r ≡ false
      → FirstMatch t s l
      → FirstMatch t s (r ∷ l)
  extend t s r l h m = record {
    before = r ∷ m.before;
    rule = m.rule;
    after = m.after;
    split_at = ap (λ k. r ∷ k) m.split_at;
    skipped = (h, m.skipped);
    matched = m.matched;
  }

  evaluate_rules-first :
      (l : List (Rule P)) (d : Action) (t s : String)
      → ((m : FirstMatch t s l) × (evaluate_rules g l d t s ≡ answer_of m.rule))
        ⊎ (All (λ r. rule_matches t s r ≡ false) l × (evaluate_rules g l d t s ≡ default_answer d))
  unfolding evaluate_rules
  evaluate_rules-first [] d t s = inr (tt, refl)
  evaluate_rules-first (r ∷ l) d t s = elim (Bool-cases (rule_matches t s r)) [
    | inl h ↦ inl (
      record { before = []; rule = r; after = l; split_at = refl; skipped = tt; matched = h },
      evaluate_rules-match r l d t s h,
    )
    | inr h ↦ elim (evaluate_rules-first l d t s) [
      | inl m ↦ inl (extend t s r l h m.0, evaluate_rules-skip r l d t s h ∙ m.1)
      | inr n ↦ inr ((h, n.0), evaluate_rules-skip r l d t s h ∙ n.1)
    ]
  ]

  -- The first rule whose filter admits the source and whose pattern matches the tool decides with
  -- its action, policy and workflow; where there is none, the default action does, without any.
  pub evaluate-first :
      (v : Governance P) (tool_name source_id : String)
      → ((m : FirstMatch tool_name source_id v.rules) × (evaluate g v tool_name source_id
            ≡ answer_of m.rule))
        ⊎ (All (λ r. rule_matches tool_name source_id r ≡ false) v.rules
            × (evaluate g v tool_name source_id ≡ default_answer v.default_action))
  unfolding evaluate
  evaluate-first v tool_name source_id =
      evaluate_rules-first v.rules v.default_action tool_name source_id

  evaluate_rules-approval :
      (l : List (Rule P)) (d : Action) (t s : String)
      → is_approval d ≡ false
      → any (λ (r : Rule P). is_approval r.action) l ≡ false
      → is_approval (evaluate_rules g l d t s).action ≡ false
  unfolding evaluate_rules
  evaluate_rules-approval [] d t s hd hl = hd
  evaluate_rules-approval (r ∷ l) d t s hd hl = ground (arith, evaluate_rules-approval l d t s hd)

  -- Where the configuration does not require an approval engine, no call of any tool of any source
  -- is answered with `Approve` or `Policy`, so none reaches the approval gate.
  pub requires_approval_engine-is_approval :
      (c : Config P) (tool_name source_id : String)
      → requires_approval_engine c ≡ false
      → is_approval (evaluate g c.governance tool_name source_id).action ≡ false
  unfolding requires_approval_engine evaluate
  requires_approval_engine-is_approval c t s h =
      evaluate_rules-approval c.governance.rules c.governance.default_action t s (ground arith)
        (ground arith)
