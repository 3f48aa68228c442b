-- ===== src/Metadata/RoundTrip.antt =====
-- What the receiver of a call reads of the span that the caller put in the metadata.
use dapper_distributed_traci.Prelude.{
  ℕ, String, ◌≡◌, refl, false, Option, some, List, [], ◌∷◌, arith, ◌==◌, if◌then◌else◌,
}
use dapper_distributed_traci.Table.{Table}
use dapper_distributed_traci.Table.Laws.{lookup-insert}
use dapper_distributed_traci.Clock.{VectorClock}
use dapper_distributed_traci.Span.{Span}
use dapper_distributed_traci.Wire.{status_unspecified}
use dapper_distributed_traci.Context.{
  get_string_from_metadata, span_id_header, trace_id_header, parent_span_id_header,
}
use dapper_distributed_traci.Metadata.{
  vector_clock_header, set_value, outgoing_or_new, set_parent, inject_clock, set_clock, to_json,
  inject_span_to_metadata, extract_span_from_metadata, extracted, extract_clock,
  vector_clock_from_json,
}

-- A key that is set reads as its value, and any other as before.
get-set_value :
    (key value other : String) (md : Table (List String))
    → get_string_from_metadata (set_value key value md) other
      ≡ (if key == other then value else get_string_from_metadata md other)
unfolding get_string_from_metadata
get-set_value key value other md = ground (arith, lookup-insert key other (value ∷ []) md)

get-set_parent :
    (parent other : String) (md : Table (List String))
    → get_string_from_metadata (set_parent parent md) other ≡ (
        if parent == ""
        then get_string_from_metadata md other
        else if parent_span_id_header == other
        then parent
        else get_string_from_metadata md other)
unfolding set_parent
get-set_parent parent other md = ground (arith, get-set_value parent_span_id_header parent other md)

-- The parent that the receiver reads: the span's own, or one that was in the metadata before.
abbrev pub parent_sent : Span → Option (Table (List String)) → String
parent_sent span md =
    if span.parent_span_id == ""
    then get_string_from_metadata (outgoing_or_new md) parent_span_id_header
    else span.parent_span_id

-- A span with a clock, which becomes `text`, is put in as four keys.
injected_as :
    (marshal : Table ℕ → Option String) (span : Span) (md : Option (Table (List String)))
    (vc : VectorClock) (text : String)
    → span.vector_clock ≡ some vc
    → marshal vc.timestamps ≡ some text
    → inject_span_to_metadata marshal (some span) md
      ≡ some (
          set_value vector_clock_header text (
            set_parent span.parent_span_id (
              set_value trace_id_header span.trace_id
                (set_value span_id_header span.span_id (outgoing_or_new md)))))
unfolding inject_span_to_metadata inject_clock set_clock to_json
injected_as marshal span md vc text clock made = rw (clock, made) refl

-- What the four keys read as.
get_sent :
    (span : Span) (md : Table (List String)) (text other : String)
    → get_string_from_metadata
        (set_value vector_clock_header text (
          set_parent span.parent_span_id
            (set_value trace_id_header span.trace_id (set_value span_id_header span.span_id md))))
        other
      ≡ (if vector_clock_header == other
          then text
          else if span.parent_span_id == ""
          then (if trace_id_header == other
              then span.trace_id
              else if span_id_header == other
              then span.span_id
              else get_string_from_metadata md other)
          else if parent_span_id_header == other
          then span.parent_span_id
          else if trace_id_header == other
          then span.trace_id
          else if span_id_header == other
          then span.span_id
          else get_string_from_metadata md other)
get_sent span md text other =
    rw
      (
        get-set_value vector_clock_header text other (
            set_parent span.parent_span_id
              (set_value trace_id_header span.trace_id (set_value span_id_header span.span_id md))),
        get-set_parent span.parent_span_id other
            (set_value trace_id_header span.trace_id (set_value span_id_header span.span_id md)),
        get-set_value trace_id_header span.trace_id other
            (set_value span_id_header span.span_id md),
        get-set_value span_id_header span.span_id other md,
      )
      refl

-- The span that the receiver of the metadata makes.
abbrev pub received : Span → Option (Table (List String)) → Table ℕ → Span
received span md timestamps = record {
  span_id = span.span_id;
  trace_id = span.trace_id;
  parent_span_id = parent_sent span md;
  service_name = "";
  operation_name = "";
  start_time = 0;
  end_time = 0;
  annotations = [];
  status = status_unspecified;
  vector_clock = some (record { timestamps = timestamps });
  node_id = "";
  has_tracer = false;
}

read_clock :
    (unmarshal : String → Option (Table ℕ)) (text : String) (timestamps : Table ℕ)
    → unmarshal text ≡ some timestamps
    → vector_clock_from_json unmarshal text ≡ some (record { timestamps = timestamps })
unfolding vector_clock_from_json
read_clock unmarshal text timestamps read = rw (vector_clock_from_json, read) refl

read_back :
    (unmarshal : String → Option (Table ℕ)) (span : Span) (md : Option (Table (List String)))
    (text : String) (timestamps : Table ℕ) (sent : Table (List String))
    → (span.span_id == "") ≡ false
    → (span.trace_id == "") ≡ false
    → (text == "") ≡ false
    → unmarshal text ≡ some timestamps
    → get_string_from_metadata sent span_id_header ≡ span.span_id
    → get_string_from_metadata sent trace_id_header ≡ span.trace_id
    → get_string_from_metadata sent parent_span_id_header ≡ parent_sent span md
    → get_string_from_metadata sent vector_clock_header ≡ text
    → extract_span_from_metadata unmarshal (some sent) ≡ some (received span md timestamps)
unfolding extract_span_from_metadata extracted extract_clock
read_back unmarshal span md text timestamps sent s t nonempty read gs gt gp gc =
    rw (gs, gt, gp, gc, s, t, nonempty, read_clock unmarshal text timestamps read) refl

pub extract_span_from_metadata-inject_span_to_metadata :
    (marshal : Table ℕ → Option String) (unmarshal : String → Option (Table ℕ)) (span : Span)
    (md : Option (Table (List String))) (vc : VectorClock) (text : String) (timestamps : Table ℕ)
    → span.vector_clock ≡ some vc
    → (span.span_id == "") ≡ false
    → (span.trace_id == "") ≡ false
    → marshal vc.timestamps ≡ some text
    → (text == "") ≡ false
    → unmarshal text ≡ some timestamps
    → extract_span_from_metadata unmarshal (inject_span_to_metadata marshal (some span) md)
      ≡ some (received span md timestamps)
extract_span_from_metadata-inject_span_to_metadata marshal unmarshal span md vc text timestamps
      clock s t made nonempty read =
    let m = outgoing_or_new md in
    rw (injected_as marshal span md vc text clock made) (
      read_back unmarshal span md text timestamps
        (set_value vector_clock_header text (
          set_parent span.parent_span_id
            (set_value trace_id_header span.trace_id (set_value span_id_header span.span_id m))))
        s t nonempty read (ground (arith, get_sent span m text span_id_header))
        (ground (arith, get_sent span m text trace_id_header))
        (ground (arith, get_sent span m text parent_span_id_header))
        (ground (arith, get_sent span m text vector_clock_header)))
