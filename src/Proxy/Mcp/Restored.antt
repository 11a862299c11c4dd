-- ===== src/Proxy/Mcp/Restored.antt =====
-- The buffer counter and the permits of mcp_handler/request.rs over every path of a body.
use thoughtgate.Base.{
  ℕ, ◌+◌, ◌-◌, ◌<◌, min, false, Option, none, some, List, [], ◌∷◌, ok, err, length, ◌≡◌, inl, inr,
  refl, ◌∙◌, ap, ap₂, arith, ltb, usize_end, wrapping_add, Bool-cases,
}
use thoughtgate.Errors.{ThoughtGateError, rate_limited}
use thoughtgate.Governance.Schema.{Glob}
use thoughtgate.Approval.Engine.Wait.{Waited}
use thoughtgate.Transport.{BatchItem, valid, invalid}
use thoughtgate.Transport.Parsing.{Requests, ParsedRequests, single, batch, parse_jsonrpc}
use thoughtgate.Proxy.Mcp.{
  McpState, Live, Call, Blocking, GateResult, immediate, blocking_approval, Step,
}
use thoughtgate.Proxy.Mcp.Routing.{route_request}
use thoughtgate.Proxy.Mcp.Answers.{McpResponse, waited, blocking_approval_sync, refuse, limited}
use thoughtgate.Proxy.Mcp.Requests.{
  Schedule, settled, handle_item, handle_items, handle_batch_request_bytes,
  handle_single_request_bytes, handle_parsed,
}
use thoughtgate.Proxy.Mcp.Body.{
  released, dropped, answer_now, is_over, permit_count, handle_permitted, by_parse,
  handle_mcp_body_bytes, batch_too_long, body_too_long, batch_size,
}
use thoughtgate.Proxy.Mcp.Routed.{load, route_request-Routed}

same_pair : (x y : ℕ × ℕ) → x.0 ≡ y.0 → x.1 ≡ y.1 → x ≡ y
same_pair (a, b) (c, d) p q = ap₂ (λ (a b : ℕ). (a, b)) p q

module _ {ℓ} {P : Type ℓ} (g : Glob P) (v : McpState P) where
  waited-load : (s : Live) (b : Blocking) (x : Waited) → load (waited v s b x).0 ≡ load s
  waited-load s b (e, calls, none) = refl
  waited-load s b (e, calls, some r) = refl

  settled-load : (w : Call) (x : Step GateResult) → load (settled v w x).0 ≡ load x.0
  unfolding blocking_approval_sync
  settled-load w (s, sent, immediate r) = refl
  settled-load w (s, sent, blocking_approval b) = waited-load s b _

  handle_item-load :
      (s : Live) (i : BatchItem) (w : Call) → load (handle_item g v s (i, w)).0 ≡ load s
  unfolding handle_item
  handle_item-load s (invalid id e) w = refl
  handle_item-load s (valid r) w =
      settled-load w (route_request g v w s r) ∙ (route_request-Routed g v w s r).0

  handle_items-load :
      (items : List (BatchItem × Call)) (s : Live) → load (handle_items g v s items).0 ≡ load s
  unfolding handle_items
  handle_items-load [] s = refl
  handle_items-load ((i, w) ∷ items) s =
      handle_items-load items (handle_item g v s (i, w)).0 ∙ handle_item-load s i w

  handle_parsed-load :
      (w : Schedule) (s : Live) (p : ParsedRequests) → load (handle_parsed g v w s p).0 ≡ load s
  unfolding handle_parsed handle_single_request_bytes handle_batch_request_bytes
  handle_parsed-load w s (single r) = (route_request-Routed g v w.call s r).0
  handle_parsed-load w s (batch items) = handle_items-load (w.order items) s

  -- A release gives back what was taken.
  released-load :
      (before : ℕ × ℕ) (size count : ℕ) (x : Step (Option McpResponse))
      → before.0 < usize_end
      → size < usize_end
      → x.0.buffered_bytes ≡ wrapping_add before.0 size
      → x.0.permits + count ≡ before.1
      → load (released size count x).0 ≡ before
  released-load before size count (s, sent, r) hb hs same_buffer same_permits =
      same_pair _ before (omega (arith, same_buffer)) same_permits

  refuse-load : (s : Live) (e : ThoughtGateError) → load (refuse v s e).0 ≡ load s
  unfolding refuse
  refuse-load s e = refl

  abbrev IsTaken : ℕ × ℕ → ℕ → Live → Type 0
  IsTaken before size s = load s ≡ (wrapping_add before.0 size, before.1)

  dropped-load :
      (before : ℕ × ℕ) (size : ℕ) (x : Step McpResponse)
      → before.0 < usize_end
      → size < usize_end
      → IsTaken before size x.0
      → load (dropped size x).0 ≡ before
  dropped-load before size x hb hs h =
      released-load before size 0 (answer_now x) hb hs (ap (λ (q : ℕ × ℕ). q.0) h)
        (omega (arith, ap (λ (q : ℕ × ℕ). q.1) h))

  abbrev taken : Live → ℕ → Live
  taken s count = record s { permits = s.permits - count }

  permitted-load :
      (w : Schedule) (before : ℕ × ℕ) (s : Live) (size : ℕ) (p : ParsedRequests)
      → before.0 < usize_end
      → size < usize_end
      → IsTaken before size s
      → ltb s.permits (permit_count p) ≡ false
      → load (released size (permit_count p) (handle_parsed g v w (taken s (permit_count p)) p)).0
        ≡ before
  permitted-load w before s size p hb hs h free =
      let kept = handle_parsed-load w (taken s (permit_count p)) p in
      let kept_permits = ap (λ (q : ℕ × ℕ). q.1) kept in
      let same = ap (λ (q : ℕ × ℕ). q.1) h in
      released-load before size (permit_count p) (handle_parsed g v w (taken s (permit_count p)) p)
        hb hs (ap (λ (q : ℕ × ℕ). q.0) kept ∙ ap (λ (q : ℕ × ℕ). q.0) h)
        (ground (arith, kept_permits, same))

  handle_permitted-load :
      (w : Schedule) (before : ℕ × ℕ) (s : Live) (size : ℕ) (p : ParsedRequests)
      → before.0 < usize_end
      → size < usize_end
      → IsTaken before size s
      → load (handle_permitted g v w s size p).0 ≡ before
  unfolding handle_permitted
  handle_permitted-load w before s size p hb hs h = elim (Bool-cases (is_over v p)) [
    | inl over ↦ rw over (
        dropped-load before size (refuse v s (batch_too_long v (batch_size p))) hb hs
          (refuse-load s (batch_too_long v (batch_size p)) ∙ h))
    | inr fits ↦ elim (Bool-cases (ltb s.permits (permit_count p))) [
      | inl busy ↦ rw (fits, busy) (dropped-load before size (limited v s) hb hs h)
      | inr free ↦ rw (fits, free) (permitted-load w before s size p hb hs h free)
    ]
  ]

  by_parse-load :
      (w : Schedule) (before : ℕ × ℕ) (s : Live) (size : ℕ) (x : Requests)
      → before.0 < usize_end
      → size < usize_end
      → IsTaken before size s
      → load (by_parse g v w s size x).0 ≡ before
  by_parse-load w before s size (counter, err e) hb hs h =
      let counted : Live = record s { counter = counter } in
      dropped-load before size (refuse v counted e) hb hs (refuse-load counted e ∙ h)
  by_parse-load w before s size (counter, ok p) hb hs h =
      handle_permitted-load w before (record s { counter = counter }) size p hb hs h

  -- After a body, refused or answered, the counter of buffered bytes and the free permits are what they
  -- were before it. The counter and the length of the body are below 2 ^ 64, as a `usize` is.
  pub handle_mcp_body_bytes-load :
      (w : Schedule) (s : Live) (body : List ℕ)
      → s.buffered_bytes < usize_end
      → length body < usize_end
      → load (handle_mcp_body_bytes g v w s body).0 ≡ load s
  unfolding handle_mcp_body_bytes
  handle_mcp_body_bytes-load w s body hb hs =
      let size = length body in
      let counted : Live = record s { buffered_bytes = wrapping_add s.buffered_bytes size } in
      elim (Bool-cases (ltb v.max_body_size size)) [
        | inl long ↦ rw long (refuse-load s (body_too_long v))
        | inr short ↦
            elim (Bool-cases
              (ltb v.max_aggregate_buffer (min (s.buffered_bytes + size) (usize_end - 1)))) [
                | inl full ↦
                    rw (short, full)
                      (dropped-load (load s) size (refuse v counted (rate_limited (some 1))) hb hs
                        (refuse-load counted (rate_limited (some 1))))
                | inr space ↦
                    rw (short, space)
                      (by_parse-load w (load s) counted size (parse_jsonrpc v.reader s.counter body)
                        hb hs refl)
              ]
      ]
