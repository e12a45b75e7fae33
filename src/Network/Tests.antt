-- ===== src/Network/Tests.antt =====
-- Runs of the code of src/network.c and uses of its theorems at concrete bytes.
use xprc_server_plugin_c.Common.{
  ℕ, ◌+◌, ◌-◌, ◌≡◌, refl, arith, true, false, none, [], ◌∷◌, length, codes, ◌==◌, ◌&&◌, ◌||◌, not,
  ltb, if◌then◌else◌,
}
use xprc_server_plugin_c.Common.Run.{ok}
use xprc_server_plugin_c.Errors.{error_none}
use xprc_server_plugin_c.Network.{
  Connection, capacity_to_read_pos, advance, choose_chunk, send_buffer_size, send_to_network,
}
use xprc_server_plugin_c.Network.Receiving.{lines_of}
use xprc_server_plugin_c.Network.Sending.{Sends, pending, send_to_network-Sends}
use xprc_server_plugin_c.Network.Sending.Fifo.{
  IsFifo, Reachable, Reachable-IsFifo, World, connected,
}

two_lines : lines_of [] (codes "v1\r\n\nab") ≡ (codes "v1" ∷ [], false)
unfolding lines_of
two_lines = refl

abbrev blank : ℕ → ℕ
blank i = 0

new_capacity : capacity_to_read_pos ((connected blank).connection) ≡ send_buffer_size - 1
unfolding capacity_to_read_pos
new_capacity = refl

-- Close to the end of the ring.
abbrev late : Connection
late = record {
  shutdown = false;
  has_send_mutex = true;
  send_ringbuffer = blank;
  send_read_pos = 2097150;
  send_write_pos = 2097150;
  chunk = none;
}

send_to_network-Sends_example :
    (r : ℕ × Connection) × (send_to_network true late (codes "+ACK") ≡ ok r)
    × Sends late (codes "+ACK") r
    × ((r.0 == error_none) ≡ (
        not (late.shutdown || not late.has_send_mutex)
        && true
        && ltb (length (pending late) + length (codes "+ACK")) send_buffer_size))
send_to_network-Sends_example =
    send_to_network-Sends true late (codes "+ACK")
      (record { read = omega arith; write = omega arith })

-- Two bytes are handed over, and one of them is sent.
handed :
    (r : ℕ × Connection) × (send_to_network true (connected blank).connection (codes "hi") ≡ ok r)
handed =
    let (r, run, sends, takes) =
      send_to_network-Sends true (connected blank).connection (codes "hi")
        (record { read = omega arith; write = omega arith }) in
    (r, run)

abbrev waiting : World
waiting = record (connected blank) {
  connection = handed.0.1;
  accepted = if handed.0.0 == error_none then codes "hi" else [];
}

abbrev chosen : World
chosen = record waiting { connection = choose_chunk waiting.connection }

abbrev halfway : World
halfway = record chosen {
  connection = (advance chosen.connection 1).0;
  delivered = (advance chosen.connection 1).1;
}

Reachable-IsFifo_example : IsFifo halfway
Reachable-IsFifo_example = Reachable-IsFifo blank halfway (
    Reachable.advances chosen 1 (
      Reachable.chooses waiting (
        Reachable.sends (connected blank) true (codes "hi") handed.0.0 handed.0.1 Reachable.started
          handed.1)))
