-- ===== src/Network/Sending/Fifo.antt =====
-- Whatever the threads' turns at the ring buffer of src/network.c, the bytes leave in the order in
-- which they were accepted.
use xprc_server_plugin_c.Common.{
  ℕ, ◌+◌, ◌≤◌, ◌<◌, ◌≡◌, refl, ◌∙◌, sym, ap, subst, inl, inr, arith, Bool, true, false, ◌&&◌,
  Option, none, some, List, [], ◌++◌, ltb, leb, ◌==◌, if◌then◌else◌, append_assoc, Bool-cases,
}
use mathlib.Core.Option.{some-injective}
use xprc_server_plugin_c.Common.Run.{Run, ok, fault}
use xprc_server_plugin_c.Network.{
  Connection, advance, advance_by, choose_chunk, send_buffer_size, send_to_network, slice, wrapped,
}
use xprc_server_plugin_c.Network.Sending.{
  IsChosen, IsValid, Sends, around, around-add, behind, pending, send_to_network-Sends,
  slice-around, used,
}
use xprc_server_plugin_c.Errors.{error_none}

-- The choice of a chunk changes nothing that waits.
choose_chunk_lem :
    (c : Connection)
    → IsValid c
    → IsChosen c
    → IsValid (choose_chunk c) × IsChosen (choose_chunk c) × (pending (choose_chunk c) ≡ pending c)
unfolding choose_chunk pending
choose_chunk_lem c v h = elim (Bool-cases (c.send_read_pos == c.send_write_pos)) [
  | inl idle ↦ rw idle (v, h, refl)
  | inr waiting ↦ rw waiting (
    record { read = v.read; write = v.write },
    λ chunk e. let same = some-injective _ _ e in ground arith,
    refl,
  )
]

module _ (c : Connection) (sent chunk : ℕ) (v : IsValid c) (positive : 0 < sent)
    (part : sent ≤ chunk) (waits : chunk ≤ used c)
    (inside : c.send_read_pos + chunk ≤ send_buffer_size) where
  abbrev moved : Connection
  moved = record c { send_read_pos = wrapped (c.send_read_pos + sent); chunk = none }

  used-moved : (used c ≡ sent + used moved) × (wrapped (c.send_read_pos + sent) < send_buffer_size)
  unfolding wrapped
  used-moved = (ground arith, ground arith)

  pending-moved : slice c.send_ringbuffer c.send_read_pos sent ++ pending moved ≡ pending c
  unfolding pending
  pending-moved =
      let there : behind c.send_read_pos sent ≡ wrapped (c.send_read_pos + sent) =
        unfold wrapped in ground arith in
      let memory = c.send_ringbuffer in
      sym (
        ap (λ (n : ℕ). around memory c.send_read_pos n) used-moved.0
        ∙ around-add memory c.send_read_pos sent (used moved) v.read (omega arith)
        ∙ rw (there, slice-around memory c.send_read_pos sent (omega arith)))

advance_by_lem :
    (c : Connection) (chosen : Option ℕ) (sent : ℕ)
    → IsValid c
    → IsChosen c
    → c.chunk ≡ chosen
    → let r = advance_by c chosen sent in
      IsValid r.0 × IsChosen r.0 × (r.1 ++ pending r.0 ≡ pending c)
unfolding advance_by
advance_by_lem c none sent v h e = (v, h, refl)
advance_by_lem c (some chunk) sent v h e = elim (Bool-cases (ltb 0 sent && leb sent chunk)) [
  | inr wrong ↦ rw wrong (v, h, refl)
  | inl right ↦
      let (waits, inside) = h chunk e in
      let positive : 0 < sent = ground arith in
      let part : sent ≤ chunk = ground arith in
      rw right (
        record { read = (used-moved c sent chunk v positive part waits inside).1; write = v.write },
        λ k f. cc,
        pending-moved c sent chunk v positive part waits inside,
      )
]

-- An advance takes what went out from the front of what waits.
advance_lem :
    (c : Connection) (sent : ℕ)
    → IsValid c
    → IsChosen c
    → let r = advance c sent in IsValid r.0 × IsChosen r.0 × (r.1 ++ pending r.0 ≡ pending c)
unfolding advance
advance_lem c sent v h = advance_by_lem c c.chunk sent v h refl

-- The connection with what was accepted and what went out so far.
pub record World : Type 0 where
  pub connection : Connection
  pub accepted : List ℕ
  pub delivered : List ℕ

-- A new connection, with any memory.
abbrev pub connected : (ℕ → ℕ) → World
connected memory = record {
  connection = record {
    shutdown = false;
    has_send_mutex = true;
    send_ringbuffer = memory;
    send_read_pos = 0;
    send_write_pos = 0;
    chunk = none;
  };
  accepted = [];
  delivered = [];
}

-- The threads' turns: a call of `send_to_network`, which gives an error and a connection, and the
-- two steps of the sending thread.
pub data Reachable (memory : ℕ → ℕ) : World → Type 0 where
  started : Reachable memory (connected memory)
  sends :
      (w : World) (locked : Bool) (content : List ℕ) (e : ℕ) (c : Connection)
      → Reachable memory w
      → send_to_network locked w.connection content ≡ ok (e, c)
      → Reachable memory (record w {
        connection = c;
        accepted = if e == error_none then w.accepted ++ content else w.accepted;
      })
  chooses :
      (w : World)
      → Reachable memory w
      → Reachable memory (record w { connection = choose_chunk w.connection })
  advances :
      (w : World) (sent : ℕ)
      → Reachable memory w
      → Reachable memory (record w {
        connection = (advance w.connection sent).0;
        delivered = w.delivered ++ (advance w.connection sent).1;
      })

-- What went out, and then what waits, is what was accepted.
pub record IsFifo (w : World) : Type 0 where
  pub valid : IsValid w.connection
  pub chosen : IsChosen w.connection
  pub delivered : w.delivered ++ pending w.connection ≡ w.accepted

result_of : Run (ℕ × Connection) → ℕ × Connection → ℕ × Connection
result_of fault default = default
result_of (ok r) default = r

ok_injective : (a b : ℕ × Connection) → ok a ≡ ok b → a ≡ b
unfolding result_of
ok_injective a b e = ap (λ r. result_of r a) e

accept-IsFifo :
    (w : World) (content : List ℕ) (r : ℕ × Connection)
    → IsFifo w
    → Sends w.connection content r
    → IsFifo (record w {
      connection = r.1;
      accepted = if r.0 == error_none then w.accepted ++ content else w.accepted;
    })
accept-IsFifo w content r fifo s = elim (Bool-cases (r.0 == error_none)) [
  | inl taken ↦ record {
    valid = s.valid;
    chosen = s.chosen fifo.chosen;
    delivered =
        rw (taken, s.accepted (ground arith))
          (sym (append_assoc w.delivered (pending w.connection) content) ∙ rw fifo.delivered);
  }
  | inr left ↦ record {
    valid = s.valid;
    chosen = s.chosen fifo.chosen;
    delivered = rw (left, s.refused (ground arith)) fifo.delivered;
  }
]

-- On a new connection, in whatever order calls of `send_to_network` and the sending thread's steps
-- follow each other, and however much the socket takes each time: the bytes that went out, followed
-- by those that wait in the ring, are those that were accepted, in order.
pub Reachable-IsFifo : (memory : ℕ → ℕ) (w : World) → Reachable memory w → IsFifo w
unfolding pending around
Reachable-IsFifo memory _ started = record {
  valid = record { read = omega arith; write = omega arith };
  chosen = λ chunk e. cc;
  delivered = refl;
}
Reachable-IsFifo memory _ (sends w locked content e c reached run) =
    let fifo = Reachable-IsFifo memory w reached in
    let (r, ran, s, takes) = send_to_network-Sends locked w.connection content fifo.valid in
    accept-IsFifo w content (e, c) fifo
      (subst (Sends w.connection content) (ok_injective r (e, c) (sym ran ∙ run)) s)
Reachable-IsFifo memory _ (chooses w reached) =
    let fifo = Reachable-IsFifo memory w reached in
    let (valid, chosen, same) = choose_chunk_lem w.connection fifo.valid fifo.chosen in
    record { valid = valid; chosen = chosen; delivered = rw same fifo.delivered }
Reachable-IsFifo memory _ (advances w sent reached) =
    let fifo = Reachable-IsFifo memory w reached in
    let (valid, chosen, split) = advance_lem w.connection sent fifo.valid fifo.chosen in
    record {
      valid = valid;
      chosen = chosen;
      delivered =
          append_assoc w.delivered (advance w.connection sent).1 _ ∙ rw split fifo.delivered;
    }
