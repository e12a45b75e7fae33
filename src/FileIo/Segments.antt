-- ===== src/FileIo/Segments.antt =====
-- Files of src/fileio.c: what is read, and whether it is all that was written.
use xprc_server_plugin_c.Common.{
  ℕ, ◌≡◌, refl, arith, true, false, ◌&&◌, some, List, [], ◌∷◌, ltb, ◌==◌, all, length, map,
}
use xprc_server_plugin_c.Errors.{error_none}
use xprc_server_plugin_c.FileIo.{
  ReadEnvironment, WriteEnvironment, concatenate, join_lines, read_file, read_lines_from_file,
  read_open_file, read_segments, write_file, write_lines_to_file,
}
use xprc_server_plugin_c.FileIo.Lines.{AreLines, IsLineEnd, split_lines-join_lines}

-- A file that can be read: each step works, and the reads give the text in pieces, none empty, until
-- the end of the file.
pub record IsReadable (env : ReadEnvironment) (text : List ℕ) : Type 0 where
  pub initialized : env.init_error ≡ error_none
  pub buffered : env.buffer_allocated ≡ true
  pub listed : env.list_allocated ≡ true
  pub opened : env.open_error ≡ error_none
  pub pieces : all (λ r. r.0 == error_none && ltb 0 (length r.1)) env.reads ≡ true
  pub kept : env.segments_allocated ≡ true
  pub ended : env.at_eof ≡ true
  pub assembled : env.data_allocated ≡ true
  pub closed : env.close_error ≡ error_none
  pub complete : concatenate (map (λ r. r.1) env.reads) ≡ text

read_segments-pieces :
    (reads : List (ℕ × List ℕ))
    → all (λ r. r.0 == error_none && ltb 0 (length r.1)) reads ≡ true
    → read_segments true reads ≡ (error_none, map (λ r. r.1) reads)
unfolding read_segments
read_segments-pieces [] h = refl
read_segments-pieces ((e, bytes) ∷ reads) h =
    let fine : (e == error_none) ≡ true = ground arith in
    let some_bytes : (length bytes == 0) ≡ false = ground arith in
    let later : all (λ r. r.0 == error_none && ltb 0 (length r.1)) reads ≡ true = ground arith in
    rw (fine, some_bytes, read_segments-pieces reads later)

read_file-readable :
    (env : ReadEnvironment) (text : List ℕ)
    → IsReadable env text
    → read_file env ≡ (error_none, some text)
unfolding read_file read_open_file
read_file-readable env text r =
    let reads : read_segments env.segments_allocated env.reads
        ≡ (error_none, map (λ q. q.1) env.reads) =
      rw r.kept (read_segments-pieces env.reads r.pieces) in
    simp (
      reads, r.initialized, r.buffered, r.listed, r.opened, r.ended, r.assembled, r.closed,
      r.complete,
    )

-- A list of lines that is written without an error is written whole, and is read back from a file
-- that can be read and holds what was written, in whatever pieces it is read.
pub read_lines-write_lines :
    (out : WriteEnvironment) (input : ReadEnvironment) (line_end : List ℕ) (lines : List (List ℕ))
    → IsLineEnd line_end
    → AreLines lines
    → write_lines_to_file out line_end lines ≡ error_none
    → IsReadable input (join_lines line_end lines)
    → (out.written ≡ length (join_lines line_end lines))
      × (read_lines_from_file input ≡ (error_none, lines))
unfolding write_lines_to_file write_file read_lines_from_file
read_lines-write_lines out input line_end lines ends plain wrote readable = (
  ground arith,
  simp (
    read_file-readable input (join_lines line_end lines) readable,
    split_lines-join_lines line_end lines ends plain,
  ),
)
