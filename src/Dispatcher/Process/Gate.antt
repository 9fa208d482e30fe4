-- ===== src/Dispatcher/Process/Gate.antt =====
-- What a request has passed when its handler is called.
use container_service_extens.Common.{
  String, ◌≡◌, ap, subst, ◌∙◌, Bool, true, ◌||◌, some, List, Result, ok, err, arith, Result-cases,
  inl, inr,
}
use container_service_extens.Common.Dict.{Dict}
use container_service_extens.Dispatcher.Entries.{Rule, Entry}
use container_service_extens.Dispatcher.Routing.{route}
use container_service_extens.Dispatcher.Process.{
  Raised, Message, is_system_operation, request_tokens, Call, Run, Parsed, parse_message, call_of,
  prepare, perform, process_request,
}
use mathlib.Core.Option.{some-injective}

module _ (Json Body : Type 0) (is_truthy : Json → Bool) (decode_body : String → Result Raised Json)
    (parse_qsl : String → Dict String) where
  -- A call was prepared from a message that was parsed and a url that was routed, for an operation
  -- of /system or by a service that runs.
  pub record Admitted (running : Bool) (flags : Dict Bool) (es : List Entry) (m : Message)
      (c : Call Json Body is_truthy decode_body parse_qsl) : Type 0 where
    pub parsed : Parsed Json Body is_truthy decode_body parse_qsl
    pub read : parse_message Json Body is_truthy decode_body parse_qsl m ≡ ok parsed
    pub url_data : Dict String
    pub routed :
        route flags parsed.method parsed.api_version (request_tokens m.request_uri) es
        ≡ ok (c.rule, url_data)
    pub served : (is_system_operation c.rule.operation || running) ≡ true

  call_of-eq-ok :
      (running : Bool) (m : Message) (p : Parsed Json Body is_truthy decode_body parse_qsl)
      (rule : Rule) (d : Dict String) (c : Call Json Body is_truthy decode_body parse_qsl)
      → call_of Json Body is_truthy decode_body parse_qsl running m p (rule, d) ≡ ok c
      → (rule ≡ c.rule) × ((is_system_operation rule.operation || running) ≡ true)
  unfolding call_of
  call_of-eq-ok running m p rule d c h = (ground arith, ground arith)

  prepare-Admitted :
      (running : Bool) (flags : Dict Bool) (es : List Entry) (m : Message)
      (c : Call Json Body is_truthy decode_body parse_qsl)
      → prepare Json Body is_truthy decode_body parse_qsl running flags es m ≡ ok c
      → Admitted running flags es m c
  unfolding prepare
  prepare-Admitted running flags es m c h =
      elim (Result-cases (parse_message Json Body is_truthy decode_body parse_qsl m)) [
        | inr (e, p) ↦ absurd (let q = rw p at h in cc)
        | inl (x, p) ↦
            elim (Result-cases
              (route flags x.method x.api_version (request_tokens m.request_uri) es)) [
                | inr (e, q) ↦ absurd (let r = rw (p, q) at h in cc)
                | inl ((rule, d), q) ↦
                    let (same, served) = call_of-eq-ok running m x rule d c (rw (p, q) at h) in
                    record {
                      parsed = x;
                      read = p;
                      url_data = d;
                      routed = q ∙ ap (λ (y : Rule). ok (y, d)) same;
                      served =
                          subst (λ y. (is_system_operation y.operation || running) ≡ true) same
                            served;
                    }
              ]
      ]

  module _
      (handle : Call Json Body is_truthy decode_body parse_qsl
        → Run Json Body is_truthy decode_body parse_qsl) where
    perform-called :
        (r : Result Raised (Call Json Body is_truthy decode_body parse_qsl))
        (c : Call Json Body is_truthy decode_body parse_qsl)
        → (perform Json Body is_truthy decode_body parse_qsl handle r).called ≡ some c
        → r ≡ ok c
    unfolding perform
    perform-called (err e) c h = cc
    perform-called (ok x) c h = elim (Result-cases (handle x).result) [
      | inl (b, p) ↦ ap ok (some-injective x c (rw p at h))
      | inr (e, p) ↦ ap ok (some-injective x c (rw p at h))
    ]

    -- Whatever handler is called, the message was parsed, its url is routed by the table to the
    -- handler's rule, and the operation is one of /system or the service runs.
    pub process_request-Admitted :
        (running : Bool) (flags : Dict Bool) (es : List Entry) (m : Message)
        (c : Call Json Body is_truthy decode_body parse_qsl)
        → (process_request Json Body is_truthy decode_body parse_qsl handle running flags es
            m).called
          ≡ some c
        → Admitted running flags es m c
    unfolding process_request
    process_request-Admitted running flags es m c h =
        prepare-Admitted running flags es m c (
          perform-called (prepare Json Body is_truthy decode_body parse_qsl running flags es m) c h)
