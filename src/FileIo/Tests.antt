-- ===== src/FileIo/Tests.antt =====
-- Runs of the code of src/fileio.c and uses of its theorems at concrete text.
use xprc_server_plugin_c.Common.{ℕ, ◌≡◌, refl, inl, true, false, List, [], ◌∷◌, length, codes}
use xprc_server_plugin_c.Errors.{error_none}
use xprc_server_plugin_c.FileIo.{
  ReadEnvironment, WriteEnvironment, concatenate, is_line_break, join_lines, read_lines_from_file,
  split_lines, write_file, write_lines_to_file,
}
use xprc_server_plugin_c.FileIo.Lines.{AreLines, split_lines-AreLines, with_line_feeds}
use xprc_server_plugin_c.FileIo.Segments.{IsReadable, read_lines-write_lines}

mixed_ends : split_lines (codes "a\r\nb\n\rc") ≡ codes "a" ∷ codes "b" ∷ [] ∷ codes "c" ∷ []
unfolding split_lines
mixed_ends = refl

abbrev lines : List (List ℕ)
lines = codes "[settings]" ∷ [] ∷ codes "a=1" ∷ []

lines-AreLines : AreLines lines
unfolding is_line_break
lines-AreLines = (λ e. cc, refl)

split_lines-AreLines_example :
    AreLines (split_lines (codes "a\r\nb\r\rc"))
    × (join_lines (codes "\n") (split_lines (codes "a\r\nb\r\rc"))
        ≡ with_line_feeds false (codes "a\r\nb\r\rc"))
split_lines-AreLines_example = split_lines-AreLines (codes "a\r\nb\r\rc")

with_line_feeds_run : with_line_feeds false (codes "a\r\nb\r\rc") ≡ codes "a\nb\n\nc"
unfolding with_line_feeds
with_line_feeds_run = refl

abbrev out : WriteEnvironment
out = record { init_error = 0; open_error = 0; write_error = 0; written = 15; close_error = 0 }

abbrev input : ReadEnvironment
input = record {
  init_error = 0;
  buffer_allocated = true;
  list_allocated = true;
  open_error = 0;
  reads = (0, codes "[settings]\n") ∷ (0, codes "\na=1") ∷ [];
  segments_allocated = true;
  at_eof = true;
  data_allocated = true;
  close_error = 0;
}

input-IsReadable : IsReadable input (join_lines (codes "\n") lines)
unfolding join_lines concatenate
input-IsReadable = record {
  initialized = refl;
  buffered = refl;
  listed = refl;
  opened = refl;
  pieces = refl;
  kept = refl;
  ended = refl;
  assembled = refl;
  closed = refl;
  complete = refl;
}

written : write_lines_to_file out (codes "\n") lines ≡ error_none
unfolding write_lines_to_file write_file join_lines
written = refl

read_lines-write_lines_example :
    (15 ≡ length (join_lines (codes "\n") lines))
    × (read_lines_from_file input ≡ (error_none, lines))
read_lines-write_lines_example =
    read_lines-write_lines out input (codes "\n") lines (inl refl) lines-AreLines written
      input-IsReadable
