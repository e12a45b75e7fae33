-- ===== src/FileIo.antt =====
-- src/fileio.c: text as lines, and files read in segments.
-- Text has no zero byte. `line_end` is `LINE_END_SEQUENCE`, which src/fileio.h sets to a line feed, or
-- on Windows to a carriage return and a line feed. What the operating system's file functions answer is
-- in the environment of a call. Memory for lines is taken to suffice.
pub mod Lines
pub mod Segments
mod Tests
use xprc_server_plugin_c.Common.{
  ℕ, ◌+◌, ◌*◌, Bool, true, false, ◌&&◌, ◌||◌, not, Option, none, some, List, [], ◌∷◌, ◌++◌, ltb,
  leb, ◌==◌, if◌then◌else◌, length,
}
use xprc_server_plugin_c.Errors.{error_none, error_unspecific, error_memory_allocation}

unfoldable pub is_line_break : ℕ → Bool
is_line_break ch = ch == b'\r' || ch == b'\n'

-- The loop of `split_lines`, with the bytes of the line so far. `after_cr` says that a line feed here
-- belongs to the carriage return before it and is skipped.
split_loop : Bool → List ℕ → List ℕ → List (List ℕ)
split_loop after_cr line [] = line ∷ []
split_loop after_cr line (ch ∷ s) =
    let skipped = split_loop false line s in
    let next = split_loop (ch == b'\r') [] s in
    let longer = split_loop false (line ++ ch ∷ []) s in
    if after_cr && (ch == b'\n') then skipped else if is_line_break ch then line ∷ next else longer

unfoldable pub split_lines : List ℕ → List (List ℕ)
unfolding split_loop is_line_break
split_lines s = split_loop false [] s

unfoldable pub join_lines : List ℕ → List (List ℕ) → List ℕ
join_lines line_end [] = []
join_lines line_end (line ∷ []) = line
join_lines line_end (line ∷ next ∷ lines) = line ++ (line_end ++ join_lines line_end (next ∷ lines))

abbrev pub buffer_size : ℕ
buffer_size = 64 * 1024

-- The answers to `read_file`. `reads` is what the calls of `read_bytes` give, one after another; an
-- entry has its error and the bytes, and the calls behind the last one give no bytes.
pub record ReadEnvironment : Type 0 where
  pub init_error : ℕ
  pub buffer_allocated : Bool
  pub list_allocated : Bool
  pub open_error : ℕ
  pub reads : List (ℕ × List ℕ)
  pub segments_allocated : Bool
  pub at_eof : Bool
  pub data_allocated : Bool
  pub close_error : ℕ

-- The loop: its error and the segments.
read_segments : Bool → List (ℕ × List ℕ) → ℕ × List (List ℕ)
read_segments allocated [] = (error_none, [])
read_segments allocated ((e, bytes) ∷ reads) =
    let (later, segments) = read_segments allocated reads in
    if length bytes == 0 || not (e == error_none)
    then (e, [])
    else if not allocated
    then (error_memory_allocation, [])
    else (later, bytes ∷ segments)

unfoldable pub concatenate : List (List ℕ) → List ℕ
concatenate [] = []
concatenate (segment ∷ segments) = segment ++ concatenate segments

-- What the open file gives, before it is closed.
read_open_file : ReadEnvironment → ℕ × Option (List ℕ)
read_open_file env =
    let (e, segments) = read_segments env.segments_allocated env.reads in
    if not (e == error_none)
    then (e, none)
    else if not env.at_eof
    then (error_unspecific, none)
    else if not env.data_allocated
    then (error_memory_allocation, none)
    else (error_none, some (concatenate segments))

-- The error and the data, which is there if it was assembled, even where closing fails.
pub read_file : ReadEnvironment → ℕ × Option (List ℕ)
read_file env =
    let (e, data_read) = read_open_file env in
    if not (env.init_error == error_none)
    then (env.init_error, none)
    else if not env.buffer_allocated || not env.list_allocated
    then (error_memory_allocation, none)
    else if not (env.open_error == error_none)
    then (env.open_error, none)
    else (if e == error_none then env.close_error else e, data_read)

-- The answers to `write_file`; `written` is what `write_bytes` wrote, by its count.
pub record WriteEnvironment : Type 0 where
  pub init_error : ℕ
  pub open_error : ℕ
  pub write_error : ℕ
  pub written : ℕ
  pub close_error : ℕ

unfoldable pub write_file : WriteEnvironment → List ℕ → ℕ
write_file env content =
    let closed = if env.write_error == error_none then env.close_error else env.write_error in
    if not (env.init_error == error_none)
    then env.init_error
    else if not (env.open_error == error_none)
    then env.open_error
    else if not (env.written == length content) && (closed == error_none)
    then error_unspecific
    else closed

pub read_lines_from_file : ReadEnvironment → ℕ × List (List ℕ)
read_lines_from_file env =
    let (e, text) = read_file env in
    if not (e == error_none)
    then (e, [])
    else elim text [ none ↦ (error_memory_allocation, []) | some s ↦ (error_none, split_lines s) ]

unfoldable pub write_lines_to_file : WriteEnvironment → List ℕ → List (List ℕ) → ℕ
write_lines_to_file env line_end lines = write_file env (join_lines line_end lines)

-- An output variable that still points to something is refused.
pub read_first_line_from_file : ReadEnvironment → Option (List ℕ) → ℕ × Option (List ℕ)
read_first_line_from_file env (some line) = (error_unspecific, some line)
read_first_line_from_file env none =
    let (e, lines) = read_lines_from_file env in
    if not (e == error_none)
    then (e, none)
    else elim lines [ [] ↦ (error_unspecific, none) | line ∷ rest ↦ (error_none, some line) ]
