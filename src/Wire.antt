-- ===== src/Wire.antt =====
-- The messages of proto/tracer.proto, as the Go structs of proto/tracer.pb.go declare them.
-- A pointer that may be nil is an `Option`; an open enum and an `int32` are integers.
use dapper_distributed_traci.Prelude.{ℕ, String, Option, List}
use dapper_distributed_traci.Prelude.Int.{ℤ, pos}
use dapper_distributed_traci.Table.{Table}

abbrev pub Status : Type 0
Status = ℤ

abbrev pub status_unspecified : Status
status_unspecified = pos 0

abbrev pub status_ok : Status
status_ok = pos 1

abbrev pub status_error : Status
status_error = pos 2

abbrev pub status_timeout : Status
status_timeout = pos 3

-- `timestamppb.Timestamp`. What instant it stands for is asked of that package.
pub record Timestamp : Type 0 where
  pub seconds : ℤ
  pub nanos : ℤ

-- Each entry is a `uint64`.
pub record VectorClock : Type 0 where
  pub timestamps : Table ℕ

pub record Span : Type 0 where
  pub span_id : String
  pub trace_id : String
  pub parent_span_id : String
  pub service_name : String
  pub operation_name : String
  pub start_time : Option Timestamp
  pub end_time : Option Timestamp
  pub annotations : Table String
  pub status : Status
  pub vector_clock : Option VectorClock
  pub node_id : String

-- `S` is what stands in the list of spans: `Span`, or `Option Span` where a nil pointer may.
pub record Trace (S : Type 0) : Type 0 where
  pub trace_id : String
  pub spans : List S
  pub start_time : Option Timestamp
  pub end_time : Option Timestamp
  pub root_service : String
  pub root_operation : String

-- `limit` and `offset` are `int32`.
pub record FilterCriteria : Type 0 where
  pub start_time : Option Timestamp
  pub end_time : Option Timestamp
  pub services : List String
  pub status : Status
  pub operation_name : String
  pub limit : ℤ
  pub offset : ℤ
