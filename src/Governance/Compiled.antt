-- ===== src/Governance/Compiled.antt =====
-- `Config::compile_patterns` of config/schema.rs: the compiled patterns decide what the texts do.
use thoughtgate.Base.{
  String, subst, Bool, Option-cases, false, Option, none, some, List, [], ◌∷◌, ◌≡◌, refl, All, any,
  arith, ok, Result-cases, inl, inr,
}
use thoughtgate.Governance.Schema.{
  Glob, ExposeConfig, Source, Rule, Config, Action, text_matches, any_pattern, is_visible, expose,
  find_source, get_source, pattern_matches, evaluate_rules, evaluate, compile_rules, compile_texts,
  compile_expose, compile_source, compile_sources, compile_patterns,
}

module _ {ℓ} {P : Type ℓ} where
  -- The compiled patterns are not part of the file (`serde(skip)`): a loaded configuration has none.
  abbrev pub IsRaw : ExposeConfig P → Type ℓ
  IsRaw ExposeConfig.everything = Unit
  IsRaw (ExposeConfig.allowlist tools compiled) = compiled ≡ []
  IsRaw (ExposeConfig.blocklist tools compiled) = compiled ≡ []

  abbrev pub IsRawOption : Option (ExposeConfig P) → Type ℓ
  IsRawOption none = Unit
  IsRawOption (some x) = IsRaw x

  pub record IsLoaded (c : Config P) : Type ℓ where
    pub raw_rules : All (λ (r : Rule P). r.compiled_pattern ≡ none) c.governance.rules
    pub raw_sources : All (λ (s : Source P). IsRawOption s.expose_config) c.sources

module _ {ℓ} {P : Type ℓ} (g : Glob P) where
  -- Gate 1 of a tool: its source must be configured and expose it.
  unfoldable pub visible_in : Option (Source P) → String → Bool
  visible_in none name = false
  visible_in (some s) name = is_visible g (expose s) name

  compile_texts-any :
      (l : List String) (ps : List P) (name : String)
      → compile_texts g l ≡ ok ps
      → any (λ p. g.matches_name p name) ps ≡ any (text_matches g name) l
  unfolding compile_texts text_matches
  compile_texts-any [] ps name h = grind arith
  compile_texts-any (t ∷ l) ps name h = elim (Result-cases (g.compile t)) [
    | inl (p, hp) ↦ elim (Result-cases (compile_texts g l)) [
      | inl (qs, hq) ↦ grind (arith, compile_texts-any l qs name hq)
      | inr (e, hq) ↦ ground arith
    ]
    | inr (e, hp) ↦ ground arith
  ]

  any_pattern-raw :
      (tools : List String) (name : String)
      → any_pattern g tools [] name ≡ any (text_matches g name) tools
  unfolding any_pattern
  any_pattern-raw tools name = refl

  any_pattern-compiled :
      (tools : List String) (ps : List P) (name : String)
      → compile_texts g tools ≡ ok ps
      → any_pattern g tools ps name ≡ any (text_matches g name) tools
  unfolding any_pattern
  any_pattern-compiled tools [] name h = refl
  any_pattern-compiled tools (p ∷ ps) name h = compile_texts-any tools (p ∷ ps) name h

  compile_rules-evaluate :
      (l : List (Rule P)) (d : Action) (t s : String)
      → All (λ (r : Rule P). r.compiled_pattern ≡ none) l
      → evaluate_rules g (compile_rules g l).0 d t s ≡ evaluate_rules g l d t s
  unfolding compile_rules evaluate_rules pattern_matches text_matches
  compile_rules-evaluate [] d t s raw = refl
  compile_rules-evaluate (r ∷ l) d t s raw =
      ground (arith, compile_rules-evaluate l d t s raw.1, raw.0)

  compile_expose-visible :
      (x y : ExposeConfig P) (name : String)
      → IsRaw x
      → compile_expose g x ≡ ok y
      → is_visible g y name ≡ is_visible g x name
  unfolding compile_expose is_visible
  compile_expose-visible ExposeConfig.everything y name raw h = ground arith
  compile_expose-visible (ExposeConfig.allowlist tools compiled) y name raw h =
      elim (Result-cases (compile_texts g tools)) [
        | inl (ps, hp) ↦ grind (arith, any_pattern-compiled tools ps name hp, any_pattern-raw)
        | inr (e, hp) ↦ ground arith
      ]
  compile_expose-visible (ExposeConfig.blocklist tools compiled) y name raw h =
      elim (Result-cases (compile_texts g tools)) [
        | inl (ps, hp) ↦ grind (arith, any_pattern-compiled tools ps name hp, any_pattern-raw)
        | inr (e, hp) ↦ ground arith
      ]

  compile_source-same :
      (s t : Source P) (name : String)
      → IsRawOption s.expose_config
      → compile_source g s ≡ ok t
      → (t.id ≡ s.id) × (is_visible g (expose t) name ≡ is_visible g (expose s) name)
  unfolding compile_source expose
  compile_source-same s t name raw h = elim (Option-cases s.expose_config) [
    | inl none_there ↦ grind arith
    | inr (x, hx) ↦ elim (Result-cases (compile_expose g x)) [
      | inl (y, hy) ↦ grind (arith, compile_expose-visible x y name (subst IsRawOption hx raw) hy)
      | inr (e, hy) ↦ ground arith
    ]
  ]

  compile_sources-same :
      (l : List (Source P)) (i name : String)
      → All (λ (s : Source P). IsRawOption s.expose_config) l
      → (compile_sources g l).1 ≡ ok tt
      → visible_in (find_source i (compile_sources g l).0) name ≡ visible_in (find_source i l) name
  unfolding compile_sources find_source visible_in
  compile_sources-same [] i name raw h = refl
  compile_sources-same (s ∷ l) i name raw h = elim (Result-cases (compile_source g s)) [
    | inl (t, ht) ↦
        grind (arith, compile_source-same s t name raw.0 ht, compile_sources-same l i name raw.1)
    | inr (e, ht) ↦ ground arith
  ]

  -- Once the patterns of a loaded configuration are compiled without an error, every call is answered
  -- as the texts of the rules answer it, and every source exposes the names that its texts expose.
  pub compile_patterns-same :
      (c : Config P)
      → IsLoaded c
      → (compile_patterns g c).1 ≡ ok tt
      → ((tool_name source_id : String)
          → evaluate g (compile_patterns g c).0.governance tool_name source_id
            ≡ evaluate g c.governance tool_name source_id)
        × ((source_id name : String)
            → visible_in (get_source (compile_patterns g c).0 source_id) name
              ≡ visible_in (get_source c source_id) name)
  unfolding compile_patterns evaluate get_source
  compile_patterns-same c loaded h = elim (Result-cases (compile_rules g c.governance.rules).1) [
    | inl (tt, hu) ↦ (
      λ t i. ground (
        arith,
        compile_rules-evaluate c.governance.rules c.governance.default_action t i loaded.raw_rules,
      ),
      λ i name. ground (arith, compile_sources-same c.sources i name loaded.raw_sources),
    )
    | inr (e, hu) ↦ ground arith
  ]
