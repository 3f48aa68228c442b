-- ===== src/Interceptor/Calls.antt =====
-- What a unary call comes to for its span: once, twice or never in the buffer of the tracer. Every
-- span is sampled here, and the tracer has no client, so that what is finished can be counted.
use Prim.Native.String.{◌++◌ as concat}
use dapper_distributed_traci.Prelude.{
  ℕ, String, ◌≡◌, refl, ◌∙◌, Bool, true, false, Option, none, some, List, Result, ok, arith,
}
use dapper_distributed_traci.Table.{Table}
use dapper_distributed_traci.Time.{Time}
use dapper_distributed_traci.Wire.{Timestamp, Status, status_ok, status_error}
use dapper_distributed_traci.Span.{Span, add_annotation, set_status}
use dapper_distributed_traci.Tracer.{Tracer}
use dapper_distributed_traci.Tracer.Offline.{
  IsKept, IsOffline, ended_at, with_span, annotated-IsKept, status-IsKept, ended_at-IsKept,
}
use dapper_distributed_traci.Interceptor.{
  Handled, returned, panicked, Started, Ended, record_result, finish_call, unary_server,
  unary_client, server_span, recovery, recover_from, recovered,
}
use dapper_distributed_traci.Interceptor.Finishing.{
  record_result-IsKept, finish_with-IsOffline, with_span-IsOffline, server_span-IsKept,
  finish_call-IsOffline, unary_client-current,
}

abbrev pub status_of : Option String → Status
status_of none = status_ok
status_of (some _) = status_error

record_result-status :
    (e : Option String) (span : Span) → (record_result e span).status ≡ status_of e
unfolding record_result set_status add_annotation
record_result-status none span = refl
record_result-status (some e) span = refl

module _ (nt : Time → Timestamp) (should_sample : String → String → Bool)
    (unmarshal : String → Option (Table ℕ)) (new : Started) (ended : Ended) (method : String)
    (md : Option (Table (List String))) (t : Tracer)
    (all_sampled : (operation_name trace_id : String)
      → should_sample operation_name trace_id ≡ true) where
  -- The interceptor after a handler that has returned.
  server-returned :
      (handler : Span → Tracer → Result Handled) (span : Span) (t' : Tracer) (e : Option String)
      → handler (server_span should_sample unmarshal new method md t) t ≡ ok (returned span t' e)
      → IsKept span
      → IsOffline 0 t'
      → let last = ended_at ended.end (record_result e span) in
        unary_server nt should_sample unmarshal new ended handler method md t
        ≡ ok (returned last (with_span last t') e)
  unfolding unary_server
  server-returned handler span t' e h kept offline =
      rw (h, finish_call-IsOffline nt ended span t' e kept offline) refl

  -- Where every span is sampled and the tracer has no client and room in its buffer: the span of a
  -- call whose handler leaves it alone goes to the buffer once, with the status of what the handler
  -- returned; where the handler panics, its span goes nowhere.
  pub unary_server_lem :
      IsOffline 0 t
      → (e : Option String) (reason : String)
      → ((span : Span) × (unary_server nt should_sample unmarshal new ended
              (λ s u. ok (returned s u e))
              method
              md
              t
            ≡ ok (returned span (with_span span t) e))
          × (span.span_id ≡ new.span_id)
          × (span.status ≡ status_of e))
        × (unary_server nt should_sample unmarshal new ended
              (λ s u. ok (panicked s u reason))
              method
              md
              t
            ≡ ok (panicked (server_span should_sample unmarshal new method md t) t reason))
  unfolding unary_server finish_call
  unary_server_lem offline e reason =
      let span = server_span should_sample unmarshal new method md t in
      let (kept, id) = server_span-IsKept should_sample all_sampled unmarshal new method md t in
      (
        (
          ended_at ended.end (record_result e span),
          server-returned (λ s u. ok (returned s u e)) span t e refl kept offline,
          (record_result-IsKept e span kept).1 ∙ id,
          record_result-status e span,
        ),
        refl,
      )

  -- Where every span is sampled and the tracer has no client and room for two: a handler that makes
  -- one call with the context it was given leaves the span of the server in the buffer twice, both
  -- times under the same id, since the interceptor of the client finishes the span it finds.
  pub unary_server-unary_client :
      (marshal : Table ℕ → Option String) (new' : Started) (ended' : Ended) (duration : String)
      (invoker : Option (Table (List String)) → Option String) (method' : String)
      → IsOffline 1 t
      → (first last : Span) × (e : Option String) × (unary_server nt should_sample unmarshal new
            ended
            (λ s u.
              unary_client nt should_sample marshal new' ended' duration invoker method'
                (some s)
                none
                u)
            method
            md
            t
          ≡ ok (returned last (with_span last (with_span first t)) e))
        × (first.span_id ≡ new.span_id)
        × (last.span_id ≡ new.span_id)
  unary_server-unary_client marshal new' ended' duration invoker method' (alone, room) =
      let span = server_span should_sample unmarshal new method md t in
      let (kept, id) = server_span-IsKept should_sample all_sampled unmarshal new method md t in
      let (first, e, first_kept, same, called) =
        unary_client-current nt should_sample marshal new' ended' duration invoker method' span none
          t kept (alone, ground (arith, room)) in
      (
        first,
        ended_at ended.end (record_result e first),
        e,
        server-returned _ first (with_span first t) e called first_kept
            (with_span-IsOffline 0 first t (alone, room)),
        same ∙ id,
        (record_result-IsKept e first first_kept).1 ∙ (same ∙ id),
      )

  -- A handler that panics, where every span is sampled and the tracer has no client and room for
  -- two. With `RecoveryInterceptor` between the server's interceptor and the handler, the span goes
  -- to the buffer twice; with it around the server's interceptor, whose span it does not see, the
  -- span goes nowhere. Either way the caller gets the panic as an error.
  pub unary_server-recovery :
      IsOffline 1 t
      → (internal_error : String → String) (ended' : Ended) (reason : String) (other : Span)
      → ((first last : Span) × (unary_server nt should_sample unmarshal new ended
              (recovery nt internal_error ended' true (λ s u. ok (panicked s u reason)))
              method
              md
              t
            ≡ ok (
                returned last
                  (with_span last (with_span first t))
                  (some (internal_error (concat "panic: " reason)))))
          × (first.span_id ≡ new.span_id)
          × (last.span_id ≡ new.span_id))
        × ((served : Span) × (recovery nt internal_error ended' false
                (λ s u.
                  unary_server nt should_sample unmarshal new ended
                    (λ r v. ok (panicked r v reason))
                    method
                    md
                    u)
                other
                t
              ≡ ok (returned served t (some (internal_error (concat "panic: " reason))))))
  unfolding unary_server recovery recover_from recovered finish_call add_annotation set_status
  unary_server-recovery (alone, room) internal_error ended' reason other =
      let span = server_span should_sample unmarshal new method md t in
      let (kept, id) = server_span-IsKept should_sample all_sampled unmarshal new method md t in
      let noted = add_annotation "panic" reason (set_status status_error span) in
      let noted_kept : IsKept noted =
        annotated-IsKept "panic" reason (set_status status_error span) refl
          (status-IsKept status_error span kept) in
      let first = ended_at ended'.end noted in
      let first_kept = ended_at-IsKept ended'.end noted noted_kept in
      let e = some (internal_error (concat "panic: " reason)) in
      (
        (
          first,
          ended_at ended.end (record_result e first),
          server-returned (recovery nt internal_error ended' true (λ s u. ok (panicked s u reason)))
              first (with_span first t) e
              (rw (finish_with-IsOffline nt ended' noted t noted_kept (alone, ground (arith, room)))
                refl)
              first_kept (with_span-IsOffline 0 first t (alone, room)),
          id,
          (record_result-IsKept e first first_kept).1 ∙ id,
        ),
        (span, refl),
      )
