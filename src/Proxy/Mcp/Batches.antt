-- ===== src/Proxy/Mcp/Batches.antt =====
-- What a batch is answered: mcp_handler/request.rs over mcp_handler/mod.rs and gate_routing.rs.
use thoughtgate.Base.{
  ℕ, ◌+◌, suc, Bool, true, false, not, Option, none, some, List, [], ◌∷◌, length, All, ◌≡◌, ◌↔◌,
  refl, ap, subst, arith, if◌then◌else◌, Option-cases, inl, inr,
}
use thoughtgate.Task.Types.{JsonRpcId}
use thoughtgate.Governance.Schema.{Glob, Config, MatchResult}
use thoughtgate.Approval.Engine.Execute.{Reply}
use thoughtgate.Approval.Engine.Wait.{Waited}
use thoughtgate.Approval.Engine.Waiting.{Late, Ends-answered, wait_and_execute-Ends}
use thoughtgate.Transport.{
  McpRequest, JsonRpcResponse, BatchItem, valid, invalid, is_some, is_notification,
}
use thoughtgate.Proxy.Mcp.{
  McpState, Live, Call, Blocking, GateResult, immediate, blocking_approval, Answered, Step,
}
use thoughtgate.Proxy.Mcp.Gates.{blocking_timeout}
use thoughtgate.Proxy.Mcp.Routing.{route_request}
use thoughtgate.Proxy.Mcp.Answers.{
  McpResponse, buffered, waited, blocking_approval_sync, no_content,
}
use thoughtgate.Proxy.Mcp.Requests.{
  settled, item_response, handle_item, handle_items, gathered, batch_written, batch_response,
  handle_batch_request_bytes, Responses, response_to,
}
use thoughtgate.Proxy.Mcp.Routed.{Waits, route_request-Routed}

abbrev pub expects_response : BatchItem → Bool
expects_response (valid r) = not (is_notification r)
expects_response (invalid id e) = true

-- The result of an item, by whether it expects a response.
abbrev Comes : Bool → Option (Option JsonRpcResponse) → Type 0
Comes expected x = (o : Option JsonRpcResponse) × (x ≡ some o) × (is_some o ≡ expected)

abbrev Counted : ℕ → Responses → Type 0
Counted n x = (l : List JsonRpcResponse) × (x ≡ some l) × (length l ≡ n)

abbrev one_if : Bool → ℕ → ℕ
one_if b n = if b then suc n else n

gathered-Counted :
    (b : Bool) (n : ℕ) (x : Option (Option JsonRpcResponse)) (rest : Responses)
    → Comes b x
    → Counted n rest
    → Counted (one_if b n) (gathered x rest)
unfolding gathered
gathered-Counted b n x rest (none, came, is) (l, there, count) =
    rw (came, there, ← is) (l, refl, count)
gathered-Counted b n x rest (some r, came, is) (l, there, count) =
    rw (came, there, ← is) (r ∷ l, refl, ap (λ k. suc k) count)

module _ {ℓ} {P : Type ℓ} (g : Glob P) (v : McpState P) where
  -- The rounds of a call go past every deadline that the proxy sets for it.
  abbrev pub WaitsEnd : Call → Type ℓ
  WaitsEnd w =
      (c : Config P) (m : MatchResult)
      → v.config ≡ some c
      → Late (w.start + blocking_timeout v c m) w.rounds

  abbrev Settled : Option Answered → Type 0
  Settled x = (r : Answered) × (x ≡ some r)

  waited-Settled :
      (s : Live) (b : Blocking) (x : Waited) (y : Reply) → x.2 ≡ some y → Settled (waited v s b x).2
  waited-Settled s b (e, calls, some z) y h = (_, refl)
  waited-Settled s b (e, calls, none) y h = cc

  settled-Settled :
      (w : Call) (id : Option JsonRpcId) (x : Step GateResult)
      → WaitsEnd w
      → Waits g v id x.2
      → Settled (settled v w x).2
  unfolding blocking_approval_sync
  settled-Settled w id (s, sent, immediate r) ends waits = (r, refl)
  settled-Settled w id (s, sent, blocking_approval b) ends (c, m, here, same, answers) =
      let e = b.approval_engine in
      let answer = Ends-answered e b.task_id _ _ w.rounds s.engine _ (
        wait_and_execute-Ends e b.task_id b.resource_name w.start b.blocking_timeout w.rounds
          s.engine (rw same (ends c m here))) in
      waited-Settled s b _ answer.0 answer.1

  item_response-Comes :
      (r : McpRequest) (x : Option Answered)
      → Settled x
      → Comes (expects_response (valid r)) (item_response v r x)
  unfolding item_response
  item_response-Comes r x (a, came) = rw came (by_notification (is_notification r))
    where
      by_notification :
          (b : Bool) → Comes (not b) (if b then some none else some (some (response_to v r a)))
      by_notification true = (none, refl, refl)
      by_notification false = (some _, refl, refl)

  handle_item-Comes :
      (s : Live) (i : BatchItem) (w : Call)
      → WaitsEnd w
      → Comes (expects_response i) (handle_item g v s (i, w)).2
  unfolding handle_item
  handle_item-Comes s (invalid id e) w ends = (some _, refl, refl)
  handle_item-Comes s (valid r) w ends =
      item_response-Comes r _
        (settled-Settled w r.id (route_request g v w s r) ends (route_request-Routed g v w s r).1)

  abbrev pub expected : List (BatchItem × Call) → ℕ
  expected [] = 0
  expected ((i, w) ∷ items) = one_if (expects_response i) (expected items)

  handle_items-Counted :
      (items : List (BatchItem × Call)) (s : Live)
      → All (λ (i : BatchItem × Call). WaitsEnd i.1) items
      → Counted (expected items) (handle_items g v s items).2
  unfolding handle_items
  handle_items-Counted [] s all = ([], refl, refl)
  handle_items-Counted ((i, w) ∷ items) s all =
      gathered-Counted (expects_response i) (expected items) (handle_item g v s (i, w)).2 _
        (handle_item-Comes s i w all.0)
        (handle_items-Counted items (handle_item g v s (i, w)).0 all.1)

  batch_written-no_content :
      (l : List JsonRpcResponse) → ((batch_written v l).0 ≡ no_content) ↔ (length l ≡ 0)
  batch_written-no_content [] = (λ h. refl, λ h. refl)
  batch_written-no_content (r ∷ l) = (
    λ h. elim (Option-cases (v.batch_to_vec (r ∷ l))) [
      | inl failed ↦ omega (arith, rw failed at h)
      | inr (bytes, done) ↦ omega (arith, rw done at h)
    ],
    λ h. omega (arith, h),
  )

  -- What a batch is answered.
  pub record Replies (items : List (BatchItem × Call)) (r : Option McpResponse) : Type 0 where
    pub responses : List JsonRpcResponse
    pub replied : r ≡ some (buffered (batch_written v responses))
    pub counted : length responses ≡ expected items
    pub silent : ((batch_written v responses).0 ≡ no_content) ↔ (expected items ≡ 0)

  -- A batch whose waits go past their deadlines is answered, in whatever order its items end: with as
  -- many responses as it has requests and elements that cannot be read, none for a notification, and
  -- with "no content" exactly when it has notifications only.
  pub handle_batch_request_bytes-Replies :
      (items : List (BatchItem × Call)) (s : Live)
      → All (λ (i : BatchItem × Call). WaitsEnd i.1) items
      → Replies items (handle_batch_request_bytes g v s items).2
  unfolding handle_batch_request_bytes batch_response
  handle_batch_request_bytes-Replies items s all =
      let counted = handle_items-Counted items s all in
      record {
        responses = counted.0;
        replied = rw (counted.1) refl;
        counted = counted.2;
        silent =
            subst (λ n. ((batch_written v counted.0).0 ≡ no_content) ↔ (n ≡ 0)) counted.2
              (batch_written-no_content counted.0);
      }
