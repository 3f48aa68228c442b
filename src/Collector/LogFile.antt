-- ===== src/Collector/LogFile.antt =====
-- `ProcessLogFile` of pkg/collector.go, over what the file system does with the file. What is written
-- to the file of processed spans is never read, and left out.
use dapper_distributed_traci.Prelude.{
  String, Bool, Option, none, some, List, [], ◌∷◌, if◌then◌else◌, Result, ok, Error, file_error,
  ◌>>=◌,
}
use dapper_distributed_traci.Prelude.Int.{next_int32}
use dapper_distributed_traci.Time.{Time}
use dapper_distributed_traci.Wire.{Timestamp, Span}
use dapper_distributed_traci.Storage.{StorageInterface}
use dapper_distributed_traci.Collector.{Collector, store_span}

-- What happens to a log file: the calls that find and open it, the lines that the scanner gives before
-- it ends or fails, and whether the file can be renamed.
pub record LogFile : Type 0 where
  pub is_there : Bool
  pub opens : Bool
  pub processed_opens : Bool
  pub lines : List String
  pub scan_fails : Bool
  pub is_renamed : Bool

module _ {S : Type 0} (as_time : Option Timestamp → Time) (store : StorageInterface S)
    (unmarshal_span : String → Option Span) where
  -- A span that was stored is counted.
  count_span : Collector S × Option Error → Collector S
  count_span (c, none) = record c { spans_processed = next_int32 c.spans_processed }
  count_span (c, some e) = c

  process_span : Option Span → Collector S → Result (Collector S)
  unfolding count_span
  process_span none c = ok c
  process_span (some span) c = do r ← store_span store as_time (some span) c; ok (count_span r)

  pub process_lines : List String → Collector S → Result (Collector S)
  unfolding process_span
  process_lines [] c = ok c
  process_lines (line ∷ rest) c = process_span (unmarshal_span line) c >>= process_lines rest

  -- After the loop.
  end_of_file : LogFile → Collector S → Collector S × Option Error
  end_of_file file c =
      if file.scan_fails
      then (c, some (file_error "scan"))
      else if file.is_renamed
      then (c, none)
      else (c, some (file_error "rename"))

  pub process_log_file : LogFile → Collector S → Result (Collector S × Option Error)
  unfolding process_lines end_of_file
  process_log_file file c =
      let read = process_lines file.lines c >>= (λ c'. ok (end_of_file file c')) in
      if file.is_there
      then (if file.opens
          then (if file.processed_opens then read else ok (c, some (file_error "processed file")))
          else ok (c, some (file_error "open")))
      else ok (c, some (file_error "stat"))
