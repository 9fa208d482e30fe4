-- ===== src/Dispatcher/Process/Answers.antt =====
-- The response of `process_request`: which statuses it has, and when the context was ended.
use container_service_extens.Common.{
  String, ◌<◌, ◌≤◌, ◌≡◌, refl, Bool, true, not, List, some, Result, ok, err, ◌>>=◌, guard, arith,
  Result-cases, Bool-cases, inl, inr, Option, none, false, ◌&&◌, ◌||◌, ◌==◌,
}
use container_service_extens.Common.Dict.{Dict}
use container_service_extens.Dispatcher.Operations.{ideal_response_code}
use container_service_extens.Dispatcher.Entries.{Entry, Method}
use container_service_extens.Common.Text.{upper}
use container_service_extens.Dispatcher.Header.{parse_accept_header}
use container_service_extens.Dispatcher.Routing.{
  RequestError, method_not_allowed, not_found, not_acceptable, route,
}
use container_service_extens.Dispatcher.Process.{
  Raised, status_of, Message, request_tokens, Call, Run, Content, content, Outcome, parse_message,
  call_of, lift_routing, or_raise, method_named, body_of, has_body, is_system_operation, prepare,
  perform, process_request,
}

-- An error below which stands the status of a client's or a server's error.
abbrev Serious {ℓ} : {A : Type ℓ} → Result Raised A → Type 0
Serious (ok a) = Unit
Serious (err e) = 400 ≤ status_of e

Serious-bind {ℓ κ} :
    {A : Type ℓ} {B : Type κ} (r : Result Raised A) (f : A → Result Raised B)
    → Serious r
    → ((a : A) → Serious (f a))
    → Serious (r >>= f)
Serious-bind (ok a) f h k = k a
Serious-bind (err e) f h k = h

Serious-or_raise {ℓ} :
    {A : Type ℓ} (o : Option A) (e : Raised) → 400 ≤ status_of e → Serious (or_raise o e)
unfolding or_raise
Serious-or_raise none e h = h
Serious-or_raise (some a) e h = tt

Serious-lift_routing {ℓ} : {A : Type ℓ} (r : Result RequestError A) → Serious (lift_routing r)
unfolding lift_routing status_of
Serious-lift_routing (ok a) = tt
Serious-lift_routing (err method_not_allowed) = omega arith
Serious-lift_routing (err not_found) = omega arith
Serious-lift_routing (err (not_acceptable vs)) = omega arith

Serious-guard : (b : Bool) (e : Raised) → 400 ≤ status_of e → Serious (guard b e)
Serious-guard true e h = tt
Serious-guard false e h = h

Serious-err {ℓ} :
    {A : Type ℓ} (r : Result Raised A) → ((e : Raised) → r ≡ err e → 400 ≤ status_of e) → Serious r
Serious-err (ok a) h = tt
Serious-err (err e) h = h e refl

module _ (Json Body : Type 0) (is_truthy : Json → Bool) (decode_body : String → Result Raised Json)
    (parse_qsl : String → Dict String)
    -- `json.loads` raises no error with a status below 400.
    (decode_fails : (s : String) (e : Raised) → decode_body s ≡ err e → 400 ≤ status_of e) where
  body_of-Serious :
      (m : Method) (raw : String)
      → Serious (body_of Json Body is_truthy decode_body parse_qsl m raw)
  unfolding body_of
  body_of-Serious m raw = elim (Bool-cases (has_body m && not (raw == ""))) [
    | inl p ↦ rw p (
        Serious-bind (decode_body raw) _ (Serious-err (decode_body raw) (decode_fails raw))
          (λ j. tt))
    | inr p ↦ rw p tt
  ]

  prepare-Serious :
      (running : Bool) (flags : Dict Bool) (es : List Entry) (m : Message)
      → Serious (prepare Json Body is_truthy decode_body parse_qsl running flags es m)
  unfolding prepare parse_message call_of status_of
  prepare-Serious running flags es m =
      Serious-bind _ _
        (Serious-bind _ _ (Serious-or_raise m.accept _ (omega arith)) λ a.
          Serious-bind _ _ (Serious-or_raise (parse_accept_header a) _ (omega arith)) λ h.
            Serious-bind _ _ (Serious-or_raise (method_named (upper m.method)) _ (omega arith))
              λ v. Serious-bind _ _ (body_of-Serious v m.body) λ b. tt)
        λ p.
          Serious-bind _ _
            (Serious-lift_routing
              (route flags p.method p.api_version (request_tokens m.request_uri) es))
            λ r.
              Serious-bind _ _
                (Serious-guard (is_system_operation r.0.operation || running) _ (omega arith))
                λ u. tt

  module _
      (handle : Call Json Body is_truthy decode_body parse_qsl
        → Run Json Body is_truthy decode_body parse_qsl)
      -- No handler raises an error with a status below 400.
      (handle_fails : (c : Call Json Body is_truthy decode_body parse_qsl) (e : Raised)
        → (handle c).result ≡ err e
        → 400 ≤ status_of e) where
    -- A call whose handler returned, its context ended unless the operation goes on.
    pub record Answered (o : Outcome Json Body is_truthy decode_body parse_qsl) : Type 0 where
      pub call : Call Json Body is_truthy decode_body parse_qsl
      pub body : Content Json Body is_truthy decode_body parse_qsl
      pub made : o.called ≡ some call
      pub returned : (handle call).result ≡ ok body
      pub replied : o.reply ≡ content body
      pub code : o.status_code ≡ ideal_response_code call.rule.operation
      pub context : o.ended ≡ not (handle call).is_async

    perform-Answered :
        (r : Result Raised (Call Json Body is_truthy decode_body parse_qsl))
        → Serious r
        → (perform Json Body is_truthy decode_body parse_qsl handle r).status_code < 400
        → Answered (perform Json Body is_truthy decode_body parse_qsl handle r)
    unfolding perform
    perform-Answered (err e) k h = absurd (omega (arith, k, h))
    perform-Answered (ok c) k h = elim (Result-cases (handle c).result) [
      | inl (b, p) ↦ rw p (record {
        call = c;
        body = b;
        made = refl;
        returned = p;
        replied = refl;
        code = refl;
        context = refl;
      })
      | inr (e, p) ↦ absurd (let q = rw p at h in omega (arith, handle_fails c e p, q))
    ]

    -- A response with a status below 400 is the answer of a handler that was called and returned,
    -- with its operation's response code, and the context was ended unless the handler went
    -- asynchronous, if the decoding of a body and the handlers raise only errors from 400 on.
    pub process_request-Answered :
        (running : Bool) (flags : Dict Bool) (es : List Entry) (m : Message)
        → (process_request Json Body is_truthy decode_body parse_qsl handle running flags es
            m).status_code
          < 400
        → Answered
            (process_request Json Body is_truthy decode_body parse_qsl handle running flags es m)
    unfolding process_request
    process_request-Answered running flags es m h =
        perform-Answered (prepare Json Body is_truthy decode_body parse_qsl running flags es m)
          (prepare-Serious running flags es m) h
