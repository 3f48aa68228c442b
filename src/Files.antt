-- ===== src/Files.antt =====
-- `FileStorage` of pkg/storage.go. The file system and encoding/json are arguments; a path is what
-- `filepath.Join` makes of the storage's directory. A lock makes each method one step, and
-- the table of the locks is left out.
pub mod Storing
pub mod Texts
mod Tests
use Prim.Native.String.{◌++◌ as concat}
use dapper_distributed_traci.Prelude.{
  ℕ, String, Bool, true, false, not, ◌&&◌, Option, none, some, List, [], ◌∷◌, ◌==◌, length, keep,
  if◌then◌else◌, Result, ok, err, panic, ◌>>=◌, Error, invalid_trace, empty_trace_id, not_found,
  file_error,
}
use dapper_distributed_traci.Prelude.Int.{ℤ, pos, ◌+ℤ◌, ltb_ℤ, leb_ℤ}
use dapper_distributed_traci.Time.{Time, is_zero, is_before, is_after}
use dapper_distributed_traci.Wire.{Timestamp, Span, Trace, FilterCriteria}
use dapper_distributed_traci.Storage.{StorageInterface, slice}
use dapper_distributed_traci.Index.{TraceIndexEntry, update_trace_index, matches_filter_entry}

-- What `ioutil.ReadFile` returns: the file does not exist, cannot be read, or has a content.
pub data Read : Type 0 where
  missing unreadable : Read
  content : String → Read

-- The calls of `ioutil` and `os`, on a disk; a `true` is a call without an error.
pub record FileSystem (D : Type 0) : Type 0 where
  pub read_file : String → D → Read
  pub write_file : String → String → D → D × Bool
  pub rename : String → String → D → D × Bool
  pub remove : String → D → D

-- `json.Marshal` and `json.Unmarshal` on traces and on the index.
pub record Json : Type 0 where
  pub marshal_trace : Trace Span → Option String
  pub unmarshal_trace : String → Option (Trace Span)
  pub marshal_index : List TraceIndexEntry → Option String
  pub unmarshal_index : String → Option (List TraceIndexEntry)

pub record Paths : Type 0 where
  pub trace_path : String → String
  pub index_path : String

abbrev pub temp_path : String → String
temp_path path = concat path ".tmp"

-- The limit, which is 100 where the filter has none, and the offset.
abbrev file_limit : Option FilterCriteria → ℤ
file_limit none = pos 100
file_limit (some filter) = if ltb_ℤ (pos 0) filter.limit then filter.limit else pos 100

abbrev file_offset : Option FilterCriteria → ℤ
file_offset none = pos 0
file_offset (some filter) = filter.offset

file_page {ℓ} : {A : Type ℓ} → ℤ → ℤ → List A → Result (List A)
file_page offset limit entries =
    let size = pos (length entries) in
    let end = offset +ℤ limit in
    if leb_ℤ size offset then ok [] else slice offset (if ltb_ℤ size end then size else end) entries

abbrev is_old : Time → TraceIndexEntry → Bool
is_old older_than entry = not (is_zero entry.end_time) && is_before entry.end_time older_than

abbrev add_result {ℓ} : {A : Type ℓ} → Result A → List A → List A
add_result (ok a) rest = a ∷ rest
add_result (err e) rest = rest
add_result panic rest = rest

later_start : TraceIndexEntry → TraceIndexEntry → Bool
later_start a b = is_after a.start_time b.start_time

module _ {D : Type 0} (fs : FileSystem D) (json : Json) (paths : Paths) where
  renamed : D × Bool → D × Option Error
  renamed (d, true) = (d, none)
  renamed (d, false) = (d, some (file_error "rename"))

  written : String → D × Bool → D × Option Error
  unfolding renamed
  written path (d, true) = renamed (fs.rename (temp_path path) path d)
  written path (d, false) = (d, some (file_error "write"))

  -- The content goes to a temporary file, which then takes the place of the file.
  pub replace_file : String → String → D → D × Option Error
  unfolding written
  replace_file path text d = written path (fs.write_file (temp_path path) text d)

  write_index : Option String → D → D × Option Error
  unfolding replace_file
  write_index none d = (d, some (file_error "marshal index"))
  write_index (some text) d = replace_file paths.index_path text d

  module _ (as_time : Option Timestamp → Time) where
    put_in_index : Trace Span → Option (List TraceIndexEntry) → D → D × Option Error
    unfolding write_index
    put_in_index trace none d = (d, some (file_error "unmarshal index"))
    put_in_index trace (some index) d =
        write_index (json.marshal_index (update_trace_index as_time trace index)) d

    put_in_index_file : Trace Span → Read → D → D × Option Error
    unfolding put_in_index
    put_in_index_file trace missing d = put_in_index trace (some []) d
    put_in_index_file trace unreadable d = (d, some (file_error "read index"))
    put_in_index_file trace (content text) d = put_in_index trace (json.unmarshal_index text) d

    pub update_index_file : Trace Span → D → D × Option Error
    unfolding put_in_index_file
    update_index_file trace d = put_in_index_file trace (fs.read_file paths.index_path d) d

    then_index : Trace Span → D × Option Error → D × Option Error
    unfolding update_index_file
    then_index trace (d, none) = update_index_file trace d
    then_index trace (d, some e) = (d, some e)

    write_trace : Trace Span → Option String → D → D × Option Error
    unfolding then_index replace_file
    write_trace trace none d = (d, some (file_error "marshal trace"))
    write_trace trace (some text) d =
        then_index trace (replace_file (paths.trace_path trace.trace_id) text d)

    pub store_in_file : Option (Trace Span) → D → D × Option Error
    unfolding write_trace
    store_in_file none d = (d, some invalid_trace)
    store_in_file (some trace) d =
        if trace.trace_id == ""
        then (d, some invalid_trace)
        else write_trace trace (json.marshal_trace trace) d

  read_trace : Option (Trace Span) → Result (Trace Span)
  read_trace none = err (file_error "unmarshal trace")
  read_trace (some trace) = ok trace

  from_file : String → Read → Result (Trace Span)
  unfolding read_trace
  from_file trace_id missing = err (not_found trace_id)
  from_file trace_id unreadable = err (file_error "read trace")
  from_file trace_id (content text) = read_trace (json.unmarshal_trace text)

  pub get_from_file : String → D → Result (Trace Span)
  unfolding from_file
  get_from_file trace_id d =
      if trace_id == ""
      then err empty_trace_id
      else from_file trace_id (fs.read_file (paths.trace_path trace_id) d)

  -- A trace that cannot be loaded is left out.
  load_all : List TraceIndexEntry → D → List (Trace Span)
  unfolding get_from_file
  load_all [] d = []
  load_all (entry ∷ rest) d = add_result (get_from_file entry.trace_id d) (load_all rest d)

  module _ (as_time : Option Timestamp → Time)
      (sort_slice : (TraceIndexEntry → TraceIndexEntry → Bool)
        → List TraceIndexEntry
        → List TraceIndexEntry) where
    list_entries :
        Option FilterCriteria → Option (List TraceIndexEntry) → D → Result (List (Trace Span))
    unfolding file_page later_start load_all
    list_entries filter none d = err (file_error "unmarshal index")
    list_entries filter (some index) d = do
      entries ←
          file_page (file_offset filter) (file_limit filter)
            (sort_slice later_start (keep (matches_filter_entry as_time filter) index))
      ok (load_all entries d)

    list_index : Option FilterCriteria → Read → D → Result (List (Trace Span))
    unfolding list_entries
    list_index filter missing d = ok []
    list_index filter unreadable d = err (file_error "read index")
    list_index filter (content text) d = list_entries filter (json.unmarshal_index text) d

    pub list_in_files : Option FilterCriteria → D → Result (List (Trace Span))
    unfolding list_index
    list_in_files filter d = list_index filter (fs.read_file paths.index_path d) d

  remove_all : List TraceIndexEntry → D → D
  remove_all [] d = d
  remove_all (entry ∷ rest) d = remove_all rest (fs.remove (paths.trace_path entry.trace_id) d)

  -- The index is written again where something was removed.
  prune_split : List TraceIndexEntry → List TraceIndexEntry → D → D × Option Error
  unfolding remove_all write_index
  prune_split [] kept d = (d, none)
  prune_split (entry ∷ rest) kept d =
      write_index (json.marshal_index kept) (remove_all (entry ∷ rest) d)

  prune_entries : Time → Option (List TraceIndexEntry) → D → D × Option Error
  unfolding prune_split
  prune_entries older_than none d = (d, some (file_error "unmarshal index"))
  prune_entries older_than (some index) d =
      prune_split (keep (is_old older_than) index) (keep (λ e. not (is_old older_than e)) index) d

  prune_index : Time → Read → D → D × Option Error
  unfolding prune_entries
  prune_index older_than missing d = (d, none)
  prune_index older_than unreadable d = (d, some (file_error "read index"))
  prune_index older_than (content text) d = prune_entries older_than (json.unmarshal_index text) d

  pub prune_files : Time → D → D × Option Error
  unfolding prune_index
  prune_files older_than d = prune_index older_than (fs.read_file paths.index_path d) d

  pub file_storage :
      (Option Timestamp → Time)
      → ((TraceIndexEntry → TraceIndexEntry → Bool) → List TraceIndexEntry → List TraceIndexEntry)
      → StorageInterface D
  unfolding store_in_file get_from_file list_in_files prune_files
  file_storage as_time sort_slice = record {
    store_trace = store_in_file as_time;
    get_trace = get_from_file;
    list_traces = list_in_files as_time sort_slice;
    prune_traces = prune_files;
  }
