-- ===== src/Analysis/Dependencies.antt =====
-- `GenerateServiceDependencyGraph` of pkg/analysis.go. The calls are kept by caller, callee and
-- operation, in three maps inside one another. `sort_strings` is `sort.Strings`.
pub mod Calls
pub mod Counting
mod Tests
use mathlib.Core.List.{map}
use dapper_distributed_traci.Prelude.{
  Bool, true, false, not, ◌&&◌, String, ◌==◌, Option, none, some, List, [], ◌∷◌, ◌++◌,
  if◌then◌else◌,
}
use dapper_distributed_traci.Prelude.Int.{ℤ, pos, eqb_ℤ, next_int}
use dapper_distributed_traci.Table.{Table, lookup, insert, keys}
use dapper_distributed_traci.Time.{Time}
use dapper_distributed_traci.Wire.{Timestamp, Span, Trace, status_error}
use dapper_distributed_traci.Analysis.{Floats, latency_ms, running_average}

pub record ServiceDependency (F : Type 0) : Type 0 where
  pub from_service : String
  pub to_service : String
  pub operation_name : String
  pub call_count : ℤ
  pub error_count : ℤ
  pub avg_latency_ms : F

pub record ServiceGraph (F : Type 0) : Type 0 where
  pub services : List String
  pub dependencies : List (ServiceDependency F)

abbrev pub or_empty_table {ℓ} : {V : Type ℓ} → Option (Table V) → Table V
or_empty_table none = []
or_empty_table (some m) = m

-- A missing key reads as a nil map.
abbrev pub inner {ℓ} : {V : Type ℓ} → String → Table (Table V) → Table V
inner key m = or_empty_table (lookup key m)

-- The service of the first span with the id.
unfoldable pub service_of : String → List Span → String
service_of id [] = ""
service_of id (span ∷ rest) =
    let later = service_of id rest in if span.span_id == id then span.service_name else later

module _ {F : Type 0} (floats : Floats F) where
  abbrev pub DepMap : Type 0
  DepMap = Table (Table (Table (ServiceDependency F)))

  abbrev pub dependency_at : String → String → String → DepMap → Option (ServiceDependency F)
  dependency_at from to operation deps = lookup operation (inner to (inner from deps))

  abbrev pub put_dependency : String → String → String → ServiceDependency F → DepMap → DepMap
  put_dependency from to operation dep deps =
      insert from (insert to (insert operation dep (inner to (inner from deps))) (inner from deps))
        deps

  new_dependency : String → Span → ServiceDependency F
  new_dependency from span = record {
    from_service = from;
    to_service = span.service_name;
    operation_name = span.operation_name;
    call_count = pos 0;
    error_count = pos 0;
    avg_latency_ms = floats.of_int (pos 0);
  }

  or_new_dependency : String → Span → Option (ServiceDependency F) → ServiceDependency F
  unfolding new_dependency
  or_new_dependency from span none = new_dependency from span
  or_new_dependency from span (some dep) = dep

  -- `before` is the count without this call.
  average_with : ℤ → Option ℤ → ServiceDependency F → F
  average_with before none dep = dep.avg_latency_ms
  average_with before (some latency) dep =
      running_average floats dep.avg_latency_ms before (floats.of_int dep.call_count)
        (floats.of_int latency)

  count_call : Option ℤ → Span → ServiceDependency F → ServiceDependency F
  unfolding average_with
  count_call latency span dep =
      let counted = record dep { call_count = next_int dep.call_count } in
      record counted {
        error_count =
            if eqb_ℤ span.status status_error then next_int dep.error_count else dep.error_count;
        avg_latency_ms = average_with dep.call_count latency counted;
      }

  pub record_dependency : Option ℤ → String → Span → DepMap → DepMap
  unfolding count_call or_new_dependency
  record_dependency latency from span deps =
      if not (from == "") && not (from == span.service_name)
      then put_dependency from span.service_name span.operation_name
          (count_call latency span (
            or_new_dependency from span
              (dependency_at from span.service_name span.operation_name deps)))
          deps
      else deps

  module _ (as_time : Timestamp → Time) where
    -- The calls of a span whose parent is named; `spans` are those of its trace.
    pub record_span : List Span → Span → DepMap → DepMap
    unfolding record_dependency
    record_span spans span deps =
        if span.parent_span_id == ""
        then deps
        else record_dependency (latency_ms as_time span) (service_of span.parent_span_id spans) span
            deps

    pub record_spans : List Span → List Span → DepMap → DepMap
    unfolding record_span
    record_spans spans [] deps = deps
    record_spans spans (span ∷ rest) deps = record_spans spans rest (record_span spans span deps)

    pub record_traces : List (Trace Span) → DepMap → DepMap
    unfolding record_spans
    record_traces [] deps = deps
    record_traces (trace ∷ rest) deps =
        record_traces rest (record_spans trace.spans trace.spans deps)

collect_services : List Span → Table Bool → Table Bool
collect_services [] services = services
collect_services (span ∷ rest) services =
    collect_services rest (insert span.service_name true services)

collect_all_services : List (Trace Span) → Table Bool → Table Bool
unfolding collect_services
collect_all_services [] services = services
collect_all_services (trace ∷ rest) services =
    collect_all_services rest (collect_services trace.spans services)

-- The values of all maps, in the order of iteration.
abbrev flatten {ℓ κ} : {V : Type ℓ} {W : Type κ} → (V → List W) → Table V → List W
flatten values [] = []
flatten values ((key, value) ∷ rest) = values value ++ flatten values rest

module _ {F : Type 0} (floats : Floats F) (as_time : Timestamp → Time)
    (sort_strings : List String → List String) where
  pub generate_service_dependency_graph : List (Trace Span) → Option (ServiceGraph F)
  unfolding record_traces collect_all_services
  generate_service_dependency_graph [] = none
  generate_service_dependency_graph (trace ∷ rest) = some (record {
    services = sort_strings (keys (collect_all_services (trace ∷ rest) []));
    dependencies =
        flatten (flatten (flatten (λ dep. dep ∷ [])))
          (record_traces floats as_time (trace ∷ rest) []);
  })
