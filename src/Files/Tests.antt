-- ===== src/Files/Tests.antt =====
-- A trace that is stored in a file system of texts next to another.
use dapper_distributed_traci.Prelude.{String, ◌≡◌, refl, none, some, [], ◌==◌, ok, if◌then◌else◌}
use Prim.Native.String.{◌++◌ as concat}
use dapper_distributed_traci.Table.{lookup, insert, delete}
use dapper_distributed_traci.Wire.{Span, Trace}
use dapper_distributed_traci.Files.{
  Json, Paths, store_in_file, get_from_file, replace_file, write_trace, then_index,
  update_index_file, put_in_index_file, put_in_index, write_index, written, renamed,
}
use dapper_distributed_traci.Files.Texts.{texts, texts-FileLaws}
use dapper_distributed_traci.Files.Storing.{IsApart, store_in_file-get_from_file}

abbrev trace : Trace Span
trace = record {
  trace_id = "t";
  spans = [];
  start_time = none;
  end_time = none;
  root_service = "web";
  root_operation = "o";
}

abbrev json : Json
json = record {
  marshal_trace = λ t. some "trace";
  unmarshal_trace = λ text. if text == "trace" then some trace else none;
  marshal_index = λ index. some "index";
  unmarshal_index = λ text. some [];
}

abbrev paths : Paths
paths = record {
  trace_path = λ id. concat "traces/" (concat id ".json");
  index_path = "index/traces.json";
}

store_in_file-get_from_file_example :
    let d' = (store_in_file texts json paths (λ t. 0) (some trace) []).0 in
    (get_from_file texts json paths "t" d' ≡ ok trace)
    × ((other : String)
        → IsApart "index/traces.json" (paths.trace_path other)
        → IsApart "traces/t.json" (paths.trace_path other)
        → get_from_file texts json paths other d' ≡ get_from_file texts json paths other [])
unfolding store_in_file write_trace then_index update_index_file put_in_index_file put_in_index
    write_index replace_file written renamed lookup insert delete
store_in_file-get_from_file_example =
    store_in_file-get_from_file texts json paths (λ t. 0) texts-FileLaws trace [] "trace" refl refl
      refl (refl, refl) refl
