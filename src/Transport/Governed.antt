-- ===== src/Transport/Governed.antt =====
-- Where transport/router.rs sends the methods that the gates govern.
use thoughtgate.Base.{
  String, true, false, none, ◌≡◌, refl, inl, inr, subst, sym, str_eq, str_eq→eq, Bool-cases,
}
use thoughtgate.Base.Texts.{starts_with}
use thoughtgate.Governance.Evaluator.{method_requires_gates}
use thoughtgate.Transport.{McpRequest}
use thoughtgate.Transport.Router.{policy_evaluation, parse_task_method, is_policed, route}

-- What the router asks of a method.
abbrev IsPoliced : String → Type 0
IsPoliced m = (str_eq m "initialize" ≡ false) × (parse_task_method m ≡ none) × (is_policed m ≡ true)

method_requires_gates-IsPoliced : (m : String) → method_requires_gates m ≡ true → IsPoliced m
unfolding method_requires_gates parse_task_method is_policed starts_with str_eq
method_requires_gates-IsPoliced m h = elim (Bool-cases (str_eq m "tools/call")) [
  | inl e ↦ subst IsPoliced (sym (str_eq→eq m "tools/call" e)) (refl, refl, refl)
  | inr n ↦ elim (Bool-cases (str_eq m "resources/read")) [
    | inl e ↦ subst IsPoliced (sym (str_eq→eq m "resources/read" e)) (refl, refl, refl)
    | inr n' ↦ elim (Bool-cases (str_eq m "resources/subscribe")) [
      | inl e ↦ subst IsPoliced (sym (str_eq→eq m "resources/subscribe" e)) (refl, refl, refl)
      | inr n'' ↦
          subst IsPoliced (sym (str_eq→eq m "prompts/get" (rw (n, n', n'') at h)))
            (refl, refl, refl)
    ]
  ]
]

-- A method that the gates govern goes to the policy, never straight to the upstream.
pub route-policy_evaluation :
    (r : McpRequest) → method_requires_gates r.method ≡ true → route r ≡ policy_evaluation r
unfolding route
route-policy_evaluation r h =
    let is = method_requires_gates-IsPoliced r.method h in rw (is.0, is.1, is.2) refl
