-- ===== src/Files/Storing.antt =====
-- What `StoreTrace` of `FileStorage` writes, and what `GetTrace` reads then.
use dapper_distributed_traci.Prelude.{
  String, Bool, true, false, ◌≡◌, refl, ap, sym, ◌∙◌, Option, none, some, List, [], ◌==◌, ok, Error,
}
use dapper_distributed_traci.Time.{Time}
use dapper_distributed_traci.Wire.{Timestamp, Span, Trace}
use dapper_distributed_traci.Index.{TraceIndexEntry, update_trace_index}
use dapper_distributed_traci.Files.{
  Read, missing, unreadable, content, FileSystem, Json, Paths, temp_path, renamed, written,
  replace_file, write_index, put_in_index, put_in_index_file, update_index_file, then_index,
  write_trace, store_in_file, from_file, read_trace, get_from_file,
}

-- What the calls of `ioutil` and `os` do where they report no error.
pub record FileLaws {D : Type 0} (fs : FileSystem D) : Type 0 where
  pub read-write_file :
      (p text : String) (d : D)
      → (fs.write_file p text d).1 ≡ true
      → fs.read_file p (fs.write_file p text d).0 ≡ content text
  pub write_file-keeps :
      (p text other : String) (d : D)
      → (fs.write_file p text d).1 ≡ true
      → (p == other) ≡ false
      → fs.read_file other (fs.write_file p text d).0 ≡ fs.read_file other d
  pub read-rename :
      (p q : String) (d : D)
      → (fs.rename p q d).1 ≡ true
      → fs.read_file q (fs.rename p q d).0 ≡ fs.read_file p d
  pub rename-keeps :
      (p q other : String) (d : D)
      → (fs.rename p q d).1 ≡ true
      → (p == other) ≡ false
      → (q == other) ≡ false
      → fs.read_file other (fs.rename p q d).0 ≡ fs.read_file other d

-- A path that is neither the file nor its temporary file.
abbrev pub IsApart : String → String → Type 0
IsApart path other = ((temp_path path == other) ≡ false) × ((path == other) ≡ false)

module _ {D : Type 0} (fs : FileSystem D) (json : Json) (paths : Paths) where
  renamed_lem :
      (r : D × Bool)
      → (renamed fs json paths r).1 ≡ none
      → (r.1 ≡ true) × ((renamed fs json paths r).0 ≡ r.0)
  unfolding renamed
  renamed_lem (d, true) h = (refl, refl)
  renamed_lem (d, false) h = absurd (cc)

  written_lem :
      (path : String) (w : D × Bool)
      → (written fs json paths path w).1 ≡ none
      → let r = fs.rename (temp_path path) path w.0 in
        (w.1 ≡ true) × (r.1 ≡ true) × ((written fs json paths path w).0 ≡ r.0)
  unfolding written
  written_lem path (d, true) h =
      let (fine, same) = renamed_lem (fs.rename (temp_path path) path d) h in (refl, fine, same)
  written_lem path (d, false) h = absurd (cc)

  -- A file that is replaced reads as its new content, and others as before.
  replace_file_lem :
      FileLaws fs
      → (path text : String) (d : D) → (replace_file fs json paths path text d).1 ≡ none
      → (fs.read_file path (replace_file fs json paths path text d).0 ≡ content text)
        × ((other : String)
            → IsApart path other
            → fs.read_file other (replace_file fs json paths path text d).0 ≡ fs.read_file other d)
  unfolding replace_file
  replace_file_lem laws path text d h =
      let w = fs.write_file (temp_path path) text d in
      let (fine, moved, same) = written_lem path w h in
      (
        ap (λ x. fs.read_file path x) same
            ∙ laws.read-rename (temp_path path) path w.0 moved
            ∙ laws.read-write_file (temp_path path) text d fine,
        λ other apart.
            ap (λ x. fs.read_file other x) same
            ∙ laws.rename-keeps (temp_path path) path other w.0 moved apart.0 apart.1
            ∙ laws.write_file-keeps (temp_path path) text other d fine apart.0,
      )

  -- The writing of the index leaves what is apart from it.
  write_index_keeps :
      FileLaws fs
      → (text : Option String) (d : D) → (write_index fs json paths text d).1 ≡ none
      → (other : String) → IsApart paths.index_path other
      → fs.read_file other (write_index fs json paths text d).0 ≡ fs.read_file other d
  unfolding write_index
  write_index_keeps laws none d h = absurd (cc)
  write_index_keeps laws (some text) d h = (replace_file_lem laws paths.index_path text d h).1

  module _ (as_time : Option Timestamp → Time) where
    put_in_index_keeps :
        FileLaws fs
        → (trace : Trace Span) (index : Option (List TraceIndexEntry)) (d : D)
        → (put_in_index fs json paths as_time trace index d).1 ≡ none
        → (other : String) → IsApart paths.index_path other
        → fs.read_file other (put_in_index fs json paths as_time trace index d).0
          ≡ fs.read_file other d
    unfolding put_in_index
    put_in_index_keeps laws trace none d h = absurd (cc)
    put_in_index_keeps laws trace (some index) d h =
        write_index_keeps laws (json.marshal_index (update_trace_index as_time trace index)) d h

    put_in_index_file_keeps :
        FileLaws fs
        → (trace : Trace Span) (r : Read) (d : D)
        → (put_in_index_file fs json paths as_time trace r d).1 ≡ none
        → (other : String) → IsApart paths.index_path other
        → fs.read_file other (put_in_index_file fs json paths as_time trace r d).0
          ≡ fs.read_file other d
    unfolding put_in_index_file
    put_in_index_file_keeps laws trace missing d h = put_in_index_keeps laws trace (some []) d h
    put_in_index_file_keeps laws trace unreadable d h = absurd (cc)
    put_in_index_file_keeps laws trace (content text) d h =
        put_in_index_keeps laws trace (json.unmarshal_index text) d h

    then_index_keeps :
        FileLaws fs
        → (trace : Trace Span) (w : D × Option Error)
        → (then_index fs json paths as_time trace w).1 ≡ none
        → (w.1 ≡ none)
          × ((other : String)
              → IsApart paths.index_path other
              → fs.read_file other (then_index fs json paths as_time trace w).0
                ≡ fs.read_file other w.0)
    unfolding then_index update_index_file
    then_index_keeps laws trace (d, none) h =
        (refl, put_in_index_file_keeps laws trace (fs.read_file paths.index_path d) d h)
    then_index_keeps laws trace (d, some e) h = absurd (cc)

    -- What the trace files read as after a store without an error.
    store_reads :
        FileLaws fs
        → (trace : Trace Span) (d : D) (text : String) → (trace.trace_id == "") ≡ false
        → json.marshal_trace trace ≡ some text
        → (store_in_file fs json paths as_time (some trace) d).1 ≡ none
        → let d' = (store_in_file fs json paths as_time (some trace) d).0 in
          let path = paths.trace_path trace.trace_id in
          (IsApart paths.index_path path → fs.read_file path d' ≡ content text)
          × ((other : String)
              → IsApart paths.index_path other
              → IsApart path other
              → fs.read_file other d' ≡ fs.read_file other d)
    unfolding store_in_file write_trace
    store_reads laws trace d text nonempty made h =
        let path = paths.trace_path trace.trace_id in
        let w = replace_file fs json paths path text d in
        let whole : store_in_file fs json paths as_time (some trace) d
            ≡ then_index fs json paths as_time trace w =
          rw (nonempty, made) refl in
        let (fine, kept) = then_index_keeps laws trace w (ap (λ r. r.1) (sym whole) ∙ h) in
        let (now, others) = replace_file_lem laws path text d fine in
        (
          λ apart. ap (λ r. fs.read_file path r.0) whole ∙ (kept path apart ∙ now),
          λ other from_index from_trace.
              ap (λ r. fs.read_file other r.0) whole
              ∙ (kept other from_index ∙ others other from_trace),
        )

    get_read :
        (id : String) (d : D) (text : String) (trace : Trace Span)
        → (id == "") ≡ false
        → fs.read_file (paths.trace_path id) d ≡ content text
        → json.unmarshal_trace text ≡ some trace
        → get_from_file fs json paths id d ≡ ok trace
    unfolding get_from_file from_file read_trace
    get_read id d text trace nonempty there read =
        rw (nonempty, there) (ap (read_trace fs json paths) read)

    get_same :
        (id : String) (d d' : D)
        → fs.read_file (paths.trace_path id) d' ≡ fs.read_file (paths.trace_path id) d
        → get_from_file fs json paths id d' ≡ get_from_file fs json paths id d
    unfolding get_from_file
    get_same id d d' same = rw same refl

    -- Over a file system that does what it reports, where StoreTrace of a trace with an id reports no
    -- error, and encoding/json reads the trace back from its text: GetTrace returns the trace for its
    -- id, and for any other id what it returned before. The paths of the two, of the index, and
    -- of their temporary files are apart.
    pub store_in_file-get_from_file :
        FileLaws fs
        → (trace : Trace Span) (d : D) (text : String) → (trace.trace_id == "") ≡ false
        → json.marshal_trace trace ≡ some text
        → json.unmarshal_trace text ≡ some trace
        → IsApart paths.index_path (paths.trace_path trace.trace_id)
        → (store_in_file fs json paths as_time (some trace) d).1 ≡ none
        → let d' = (store_in_file fs json paths as_time (some trace) d).0 in
          (get_from_file fs json paths trace.trace_id d' ≡ ok trace)
          × ((other : String)
              → IsApart paths.index_path (paths.trace_path other)
              → IsApart (paths.trace_path trace.trace_id) (paths.trace_path other)
              → get_from_file fs json paths other d' ≡ get_from_file fs json paths other d)
    store_in_file-get_from_file laws trace d text nonempty made read apart h =
        let d' = (store_in_file fs json paths as_time (some trace) d).0 in
        let (now, others) = store_reads laws trace d text nonempty made h in
        (
          get_read trace.trace_id d' text trace nonempty (now apart) read,
          λ other from_index from_trace.
              get_same other d d' (others (paths.trace_path other) from_index from_trace),
        )
