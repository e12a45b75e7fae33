-- ===== src/Network.antt =====
-- src/network.c: the ring buffer of a connection between `send_to_network` and the sending thread,
-- and the lines that the receiving thread cuts out of what arrives.
-- The ring is a memory of `SEND_BUFFER_SIZE` bytes; a copy that leaves it is the result `fault`. The
-- sending thread lets the mutex go between its choice of a chunk and its next advance, so these are
-- two steps, and `chunk` holds what it has chosen. Conditions to wait on have no state.
pub mod Sending
pub mod Receiving
mod Tests
use xprc_server_plugin_c.Common.{
  ℕ, zero, suc, ◌+◌, ◌-◌, ◌*◌, min, Bool, true, false, ◌&&◌, ◌||◌, not, Option, none, some, List,
  [], ◌∷◌, ltb, leb, ◌==◌, if◌then◌else◌, get_or, set, length, take, drop, replicate,
}
use xprc_server_plugin_c.Common.Run.{Run, ok, fault, ◌>>=◌}
use xprc_server_plugin_c.Errors.{
  error_none, error_unspecific, network_error_capacity, network_error_shutdown,
}

abbrev pub send_buffer_size : ℕ
send_buffer_size = 2 * 1024 * 1024

abbrev pub send_chunk_size : ℕ
send_chunk_size = 512

abbrev pub receive_max_line_length : ℕ
receive_max_line_length = 64 * 1024

pub record Connection : Type 0 where
  pub shutdown : Bool
  pub has_send_mutex : Bool
  pub send_ringbuffer : ℕ → ℕ
  pub send_read_pos : ℕ
  pub send_write_pos : ℕ
  -- what the sending thread is about to send, outside the mutex
  pub chunk : Option ℕ

copied : (ℕ → ℕ) → ℕ → List ℕ → ℕ → ℕ
copied memory offset content i =
    if leb offset i && ltb (i - offset) (length content)
    then get_or content (i - offset) 0
    else memory i

-- `memcpy(connection->send_ringbuffer + offset, content, length)`
copy_to_ring : (ℕ → ℕ) → ℕ → List ℕ → Run (ℕ → ℕ)
copy_to_ring memory offset content =
    if leb (offset + length content) send_buffer_size
    then ok (copied memory offset content)
    else fault

-- How much the ring can take in; one byte stays free.
unfoldable pub capacity_to_read_pos : Connection → ℕ
capacity_to_read_pos c =
    if ltb c.send_write_pos c.send_read_pos
    then c.send_read_pos - c.send_write_pos - 1
    else if c.send_read_pos == c.send_write_pos
    then send_buffer_size - 1
    else send_buffer_size - c.send_write_pos + c.send_read_pos - 1

wrapped : ℕ → ℕ
wrapped position = if leb send_buffer_size position then 0 else position

-- The two copies.
write_ring : Connection → List ℕ → Run (ℕ × Connection)
write_ring c content =
    let num_copy_to_end = min (send_buffer_size - c.send_write_pos) (length content) in
    let write_pos = wrapped (c.send_write_pos + num_copy_to_end) in
    let num_copy_at_start = length content - num_copy_to_end in
    (do
      first ← copy_to_ring c.send_ringbuffer c.send_write_pos (take num_copy_to_end content)
      second ←
          (if ltb 0 num_copy_at_start
            then copy_to_ring first 0 (drop num_copy_to_end content)
            else ok first)
      ok (
        error_none,
        record c { send_ringbuffer = second; send_write_pos = write_pos + num_copy_at_start },
      ))

-- `locked` says whether the mutex is had. `content` is as long as the argument `length` says.
pub send_to_network : Bool → Connection → List ℕ → Run (ℕ × Connection)
send_to_network locked c content =
    let write = write_ring c content in
    if c.shutdown || not c.has_send_mutex
    then ok (network_error_shutdown, c)
    else if not locked
    then ok (error_unspecific, c)
    else if ltb (capacity_to_read_pos c) (length content)
    then ok (network_error_capacity, c)
    else write

-- The sending thread under the mutex: nothing if all is sent, or the size of the next chunk.
pub choose_chunk : Connection → Connection
choose_chunk c =
    let pending =
      if ltb c.send_read_pos c.send_write_pos
      then c.send_write_pos - c.send_read_pos
      else send_buffer_size - c.send_read_pos in
    if c.send_read_pos == c.send_write_pos
    then c
    else record c { chunk = some (min pending send_chunk_size) }

-- The bytes from an offset on.
unfoldable pub slice : (ℕ → ℕ) → ℕ → ℕ → List ℕ
slice memory offset zero = []
slice memory offset (suc n) = memory offset ∷ slice memory (offset + 1) n

advance_by : Connection → Option ℕ → ℕ → Connection × List ℕ
advance_by c none sent = (c, [])
advance_by c (some chunk) sent =
    if ltb 0 sent && leb sent chunk
    then (
      record c { send_read_pos = wrapped (c.send_read_pos + sent); chunk = none },
      slice c.send_ringbuffer c.send_read_pos sent,
    )
    else (c, [])

-- `send` took `sent` bytes of the chunk, at least one and at most all; otherwise the thread ends. With
-- the mutex again, it moves on. The result is the bytes that went out.
pub advance : Connection → ℕ → Connection × List ℕ
advance c sent = advance_by c c.chunk sent

-- What the receiving thread keeps between two chunks.
pub record Receiver : Type 0 where
  pub line_buffer : List ℕ
  pub line_write_offset : ℕ

abbrev pub new_receiver : Receiver
new_receiver = record { line_buffer = replicate receive_max_line_length 0; line_write_offset = 0 }

is_line_end : ℕ → Bool
is_line_end ch = ch == b'\n' || ch == b'\r'

-- The handler of complete lines gets the line and what the buffer holds behind it; `closing` reads the
-- connection's flag, which the handler may set.
module _ {S : Type 0} (on_line_received : S → List ℕ → List ℕ → Run S) (closing : S → Bool) where
  complete_line : S → Receiver → Run S
  complete_line s r =
      if r.line_write_offset == 0
      then ok s
      else on_line_received s (drop r.line_write_offset r.line_buffer)
          (take r.line_write_offset r.line_buffer)

  -- The loop over the bytes of a chunk; the flag tells whether the thread gives up.
  unfoldable pub receive_chunk : S → Receiver → List ℕ → Run (S × Receiver × Bool)
  unfolding is_line_end complete_line
  receive_chunk s r [] = ok (s, r, false)
  receive_chunk s r (ch ∷ chunk) =
      let stored : Receiver = record {
        line_buffer = set r.line_buffer r.line_write_offset ch;
        line_write_offset = r.line_write_offset + 1;
      } in
      let next = receive_chunk s stored chunk in
      let after_line = (do
        t ← complete_line s r
        receive_chunk t (record r { line_write_offset = 0 }) chunk) in
      if closing s
      then ok (s, r, false)
      else if is_line_end ch
      then after_line
      else if leb (length r.line_buffer) r.line_write_offset
      then fault
      else if leb receive_max_line_length (r.line_write_offset + 1)
      then ok (s, stored, true)
      else next

  -- The loop of the thread: `chunks` is what `recv` gives, one after another, until the connection
  -- ends, fails or is shut down.
  unfoldable pub receive_chunks : S → Receiver → List (List ℕ) → Run (S × Receiver × Bool)
  unfolding receive_chunk
  receive_chunks s r [] = ok (s, r, false)
  receive_chunks s r (chunk ∷ chunks) =
      let step = (do
        t ← receive_chunk s r chunk
        if t.2 then ok t else receive_chunks t.0 t.1 chunks) in
      if closing s then ok (s, r, false) else step
