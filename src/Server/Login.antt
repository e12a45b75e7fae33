-- ===== src/Server/Login.antt =====
-- A client with the right lines gets through the handshake of src/server.c.
use xprc_server_plugin_c.Common.{
  ℕ, ◌+◌, ◌*◌, ◌/◌, ◌≤◌, ◌<◌, ◌≡◌, refl, ap, arith, true, false, some, List, [], ◌∷◌, ◌++◌, ltb,
  leb, ◌==◌, length, codes, all_below, all_below_sound, ==_iff, length-append, ==_refl,
}
use xprc_server_plugin_c.Common.Int.{ℤ, pos}
use xprc_server_plugin_c.Common.Run.{ok}
use xprc_server_plugin_c.Errors.{error_none}
use xprc_server_plugin_c.Server.{
  Client, Commands, LineEnvironment, complete_handshake, handshake_completion,
  handshake_completion_buffer_size, millis_of_timespec, on_line_received, padded,
  phase_await_password, phase_await_version, phase_logged_in, receive_password, receive_version,
  is_supported, set_reference, transmit,
}
use xprc_server_plugin_c.Text.{strn_eq, ato, count_digits, num_digits, decimal}

length-padded : (millis : ℕ) → millis < 1000 → length (padded millis) ≡ 3
unfolding padded decimal all_below
length-padded millis small =
    (==_iff (length (padded millis)) 3).0
      (all_below_sound 1000 (λ m. length (padded m) == 3) millis refl small)

strn_eq_refl : (a : List ℕ) → strn_eq (length a) a a ≡ true
unfolding strn_eq
strn_eq_refl [] = refl
strn_eq_refl (x ∷ a) = rw (==_refl x) (strn_eq_refl a)

-- What the handshake is completed with fits its buffer.
length-handshake_completion :
    (coarse : List ℕ) (millis : ℕ)
    → length coarse ≤ 28
    → millis < 1000
    → leb handshake_completion_buffer_size (length (handshake_completion coarse millis)) ≡ false
unfolding handshake_completion
length-handshake_completion coarse millis short small = ground (
  arith,
  length-padded millis small,
  length-append coarse (b'.' ∷ padded millis ++ codes "+00:00\n"),
  length-append (padded millis) (codes "+00:00\n"),
)

announced : Client → Client
announced client = record client { client_version = pos 1; phase = phase_await_password }

receive_version-announced :
    (client : Client) → receive_version client [] (codes "v1") ≡ ok (announced client)
unfolding receive_version announced ato count_digits num_digits
receive_version-announced client = refl

module _ (env : LineEnvironment) (password text : List ℕ) (seconds nanoseconds : ℕ)
    (some_password : 1 ≤ length password)
    (time : env.reference ≡ some (record { tv_sec = pos seconds; tv_nsec = nanoseconds }))
    (normal : nanoseconds < 1000000000) (formatted : env.coarse ≡ some text)
    (short : length text ≤ 28) (sent : env.lock.send.network ≡ error_none) where
  abbrev now : ℤ
  now = pos (seconds * 1000 + nanoseconds / 1000000)

  logged_in : Client → Client
  logged_in client = record client {
    phase = phase_logged_in;
    session = record client.session {
      reference_millis = now;
      sent = client.session.sent ++ handshake_completion text (nanoseconds / 1000000) ∷ [];
    };
  }

  receive_password-logged_in :
      (client : Client)
      → client.client_version ≡ pos 1
      → receive_password env password client password ≡ logged_in client
  unfolding receive_password logged_in set_reference complete_handshake transmit is_supported
      millis_of_timespec
  receive_password-logged_in client version =
      let fits = length-handshake_completion text (nanoseconds / 1000000) short (omega arith) in
      let long : ltb (length password) 1 ≡ false = ground arith in
      simp (
        version,
        long,
        strn_eq_refl password,
        ==_refl (length password),
        time,
        formatted,
        fits,
        sent,
      )

  -- A new connection that receives "v1" and then the server's password is logged in, with the time
  -- that the completion of the handshake was sent with as its reference, where the clock gives a
  -- time, it is formatted, and the network takes the completion.
  pub on_line_received-logs_in :
      (commands : Commands) (first : LineEnvironment) (start : Client) (behind : List ℕ)
      → start.phase ≡ phase_await_version
      → (greeted after : Client) × (on_line_received commands first password start [] (codes "v1")
          ≡ ok greeted)
        × (on_line_received commands env password greeted behind password ≡ ok after)
        × (after.phase ≡ phase_logged_in)
        × (after.closing ≡ start.closing)
        × (after.session.reference_millis ≡ now)
        × (after.session.sent
            ≡ start.session.sent ++ handshake_completion text (nanoseconds / 1000000) ∷ [])
  unfolding on_line_received announced logged_in
  on_line_received-logs_in commands first start behind new = (
    announced start,
    logged_in (announced start),
    simp (new, receive_version-announced),
    ap ok (receive_password-logged_in (announced start) refl),
    refl,
    refl,
    refl,
    refl,
  )
