-- ===== src/Server/Handshake.antt =====
-- Who gets past the handshake of src/server.c.
use xprc_server_plugin_c.Common.{
  ℕ, ◌^◌, ◌-◌, ◌/◌, ◌≤◌, ◌≡◌, ◌≢◌, ◌⊎◌, refl, ◌∙◌, sym, ap, subst, inl, inr, arith, true, ◌||◌, not,
  Option, none, some, List, [], ◌∷◌, ◌++◌, ltb, leb, ◌==◌, get_or, length, drop, codes, Bool-cases,
  ==_iff,
}
use xprc_server_plugin_c.Common.Int.{ℤ, pos, negsuc, neg_part}
use xprc_server_plugin_c.Common.Run.{Run, ok, fault}
use xprc_server_plugin_c.Channels.{ChannelsTable}
use xprc_server_plugin_c.Server.{
  Client, Commands, LineEnvironment, Timespec, on_line_received, receive_version, receive_password,
  set_reference, complete_handshake, fail, fail_with, is_supported, phase_await_version,
  phase_await_password, phase_failed, phase_logged_in, handshake_completion,
  handshake_completion_buffer_size, close_network_connection, transmit, millis_of_timespec,
}
use xprc_server_plugin_c.Errors.{error_none}
use xprc_server_plugin_c.Text.{ato, count_digits, fits, num_digits, strn_eq}

strn_eq_sound : (a b : List ℕ) → length a ≡ length b → strn_eq (length b) a b ≡ true → a ≡ b
unfolding strn_eq
strn_eq_sound [] [] sized h = refl
strn_eq_sound [] (y ∷ b) sized h = absurd (omega arith)
strn_eq_sound (x ∷ a) [] sized h = absurd (omega arith)
strn_eq_sound (x ∷ a) (y ∷ b) sized h = ground (arith, strn_eq_sound a b)

supported_version : (version : ℤ) → is_supported version ≡ true → version ≡ pos 1
unfolding is_supported
supported_version (pos n) h = ap pos ((==_iff n 1).0 h)
supported_version (negsuc n) h = cc

one_character : (c : ℕ) → ato (c ∷ []) ≡ pos 1 → c ≡ b'1'
unfolding ato
one_character c h = ground arith

one_digit : count_digits (pos 1) ≡ 1
unfolding count_digits
one_digit = refl

-- The only line that announces the supported version is "v1".
version_line :
    (line : List ℕ)
    → get_or line 0 0 ≡ b'v'
    → 2 ≤ length line
    → count_digits (ato (drop 1 line ++ [])) ≡ length line - 1
    → is_supported (ato (drop 1 line ++ [])) ≡ true
    → line ≡ codes "v1"
version_line [] first long digits supported = absurd (omega arith)
version_line (x ∷ []) first long digits supported = absurd (omega arith)
version_line (x ∷ c ∷ []) first long digits supported =
    rw (first, one_character c (supported_version _ supported))
version_line (x ∷ c ∷ d ∷ s) first long digits supported =
    let value : ato (c ∷ d ∷ s ++ []) ≡ pos 1 = supported_version _ supported in
    absurd (omega (arith, sym (ap count_digits value) ∙ digits, one_digit))

-- A handshake that fails closes the connection and leaves the channels alone.
abbrev pub Rejected : Client → Client → Type 0
Rejected before after =
    (after.phase ≡ phase_failed)
    × (after.closing ≡ true)
    × (after.session.channels ≡ before.session.channels)

ok_client : Run Client → Client → Client
ok_client fault default = default
ok_client (ok client) default = client

ok_injective : (a b : Client) → ok a ≡ ok b → a ≡ b
unfolding ok_client
ok_injective a b e = ap (λ r. ok_client r a) e

-- What a version line does.
abbrev Announced : Client → List ℕ → Client → Type 0
Announced before line after =
    Rejected before after
    ⊎ ((after.phase ≡ phase_await_password)
        × (after.session.channels ≡ before.session.channels)
        × (is_supported after.client_version ≡ true → line ≡ codes "v1"))

receive_version_lem :
    (client after : Client) (line : List ℕ)
    → receive_version client [] line ≡ ok after
    → Announced client line after
unfolding receive_version fail close_network_connection num_digits
receive_version_lem client after line run =
    let version = ato (drop 1 line ++ []) in
    let arrives =
      λ (c : Client) (e : receive_version client [] line ≡ ok c) (a : Announced client line c).
        subst (Announced client line) (ok_injective _ _ (sym e ∙ run)) a in
    elim (Bool-cases (ltb (length line) 2 || not (get_or line 0 0 == b'v'))) [
      | inl bad ↦ arrives (fail client) (rw bad) (inl (refl, refl, refl))
      | inr started ↦ elim (Bool-cases (fits 32 version)) [
        | inr large ↦
            absurd (let e : receive_version client [] line ≡ fault = rw (started, large) in cc)
        | inl small ↦ elim (Bool-cases (neg_part version == 2 ^ 31)) [
          | inl least ↦
              absurd
                (let e : receive_version client [] line ≡ fault = rw (started, small, least) in cc)
          | inr counts ↦ elim (Bool-cases (count_digits version == length line - 1)) [
            | inr other ↦
                arrives (fail (record client { client_version = version }))
                  (rw (started, small, counts, other)) (inl (refl, refl, refl))
            | inl counted ↦
                arrives (record client { client_version = version; phase = phase_await_password })
                  (rw (started, small, counts, counted))
                  (inr (
                    refl,
                    refl,
                    λ supported.
                        version_line line (ground arith) (ground arith)
                          ((==_iff (count_digits version) (length line - 1)).0 counted) supported,
                  ))
          ]
        ]
      ]
    ]

-- What the last steps of the handshake do.
abbrev Answered : Client → Client → Type 0
Answered before after =
    Rejected before after
    ⊎ ((after.phase ≡ phase_logged_in) × (after.session.channels ≡ before.session.channels))

complete_handshake_lem :
    (env : LineEnvironment) (client : Client) (reference : Timespec) (coarse : List ℕ)
    → Answered client (complete_handshake env client reference coarse)
unfolding complete_handshake fail fail_with close_network_connection transmit
complete_handshake_lem env client reference coarse =
    let line = handshake_completion coarse (reference.tv_nsec / 1000000) in
    elim (Bool-cases (leb handshake_completion_buffer_size (length line))) [
      | inl long ↦ rw long (inl (refl, refl, refl))
      | inr fitting ↦ elim (Bool-cases (env.lock.send.network == error_none)) [
        | inl sent ↦ rw (fitting, sent) (inr (refl, refl))
        | inr lost ↦ rw (fitting, lost) (inl (refl, refl, refl))
      ]
    ]

set_reference_lem :
    (env : LineEnvironment) (client : Client) (reference : Option Timespec)
    (coarse : Option (List ℕ))
    → Answered client (set_reference env client reference coarse)
unfolding set_reference fail_with close_network_connection transmit
set_reference_lem env client none coarse = inl (refl, refl, refl)
set_reference_lem env client (some reference) none =
    elim (Bool-cases (ltb 0 (neg_part (millis_of_timespec reference)))) [
      | inl negative ↦ rw negative (inl (refl, refl, refl))
      | inr good ↦ rw good (inl (refl, refl, refl))
    ]
set_reference_lem env client (some reference) (some text) =
    elim (Bool-cases (ltb 0 (neg_part (millis_of_timespec reference)))) [
      | inl negative ↦ rw negative (inl (refl, refl, refl))
      | inr good ↦ rw good (complete_handshake_lem env _ reference text)
    ]

-- What a password line does.
abbrev Authenticated : List ℕ → Client → List ℕ → Client → Type 0
Authenticated password before line after =
    Rejected before after
    ⊎ ((after.phase ≡ phase_logged_in)
        × (after.session.channels ≡ before.session.channels)
        × (line ≡ password)
        × (is_supported before.client_version ≡ true))

receive_password_lem :
    (env : LineEnvironment) (password : List ℕ) (client : Client) (line : List ℕ)
    → Authenticated password client line (receive_password env password client line)
unfolding receive_password fail fail_with close_network_connection transmit
receive_password_lem env password client line = elim (Bool-cases (ltb (length line) 1)) [
  | inl empty ↦ rw empty (inl (refl, refl, refl))
  | inr some_line ↦
      elim (Bool-cases
        (not (length line == length password) || not (strn_eq (length password) line password))) [
          | inl wrong ↦ rw (some_line, wrong) (inl (refl, refl, refl))
          | inr right ↦ elim (Bool-cases (is_supported client.client_version)) [
            | inr other ↦ rw (some_line, right, other) (inl (refl, refl, refl))
            | inl supported ↦
                let same = strn_eq_sound line password (ground arith) (ground arith) in
                rw (some_line, right, supported)
                  (elim (set_reference_lem env client env.reference env.coarse) [
                    | inl rejected ↦ inl rejected
                    | inr (phase, channels) ↦ inr (phase, channels, same, refl)
                  ])
          ]
        ]
]

-- Lines that a connection received, in order, from the client record `start`. The receive buffer is
-- zero until the first line is complete, so nothing but that line is read then.
pub data Received (commands : Commands) (password : List ℕ) (start : Client)
    : List (List ℕ) → Client → Type 0 where
  connected : Received commands password start [] start
  received :
      (lines : List (List ℕ)) (before after : Client) (env : LineEnvironment) (behind line : List ℕ)
      → Received commands password start lines before
      → (lines ≡ [] → behind ≡ [])
      → on_line_received commands env password before behind line ≡ ok after
      → Received commands password start (lines ++ line ∷ []) after

-- The stations of a handshake.
data Progress (password : List ℕ) (tables : ChannelsTable) (lines : List (List ℕ)) (client : Client)
    : Type 0 where
  passed :
      (rest : List (List ℕ))
      → lines ≡ codes "v1" ∷ password ∷ rest
      → Progress password tables lines client
  awaiting_version :
      client.phase ≡ phase_await_version
      → lines ≡ []
      → client.session.channels ≡ tables
      → Progress password tables lines client
  awaiting_password :
      (line : List ℕ)
      → client.phase ≡ phase_await_password
      → lines ≡ line ∷ []
      → (is_supported client.client_version ≡ true → line ≡ codes "v1")
      → client.session.channels ≡ tables
      → Progress password tables lines client
  rejected :
      client.phase ≡ phase_failed
      → client.session.channels ≡ tables
      → Progress password tables lines client

module _ (commands : Commands) (env : LineEnvironment) (password behind line : List ℕ)
    (tables : ChannelsTable) (lines : List (List ℕ)) (before after : Client)
    (run : on_line_received commands env password before behind line ≡ ok after)
    (fresh : lines ≡ [] → behind ≡ []) where
  version_phase :
      before.phase ≡ phase_await_version → behind ≡ [] → receive_version before [] line ≡ ok after
  unfolding on_line_received
  version_phase phase nothing =
      let e : on_line_received commands env password before behind line
          ≡ receive_version before [] line =
        rw (phase, nothing) in
      sym e ∙ run

  password_phase :
      before.phase ≡ phase_await_password → receive_password env password before line ≡ after
  unfolding on_line_received
  password_phase phase =
      let e : on_line_received commands env password before behind line
          ≡ ok (receive_password env password before line) =
        rw phase in
      ok_injective _ _ (sym e ∙ run)

  failed_phase : before.phase ≡ phase_failed → before ≡ after
  unfolding on_line_received
  failed_phase phase =
      let e : on_line_received commands env password before behind line ≡ ok before = rw phase in
      ok_injective _ _ (sym e ∙ run)

  step-Progress :
      Progress password tables lines before → Progress password tables (lines ++ line ∷ []) after
  step-Progress (passed rest e) = passed (rest ++ line ∷ []) (rw e refl)
  step-Progress (awaiting_version phase e same) =
      elim (receive_version_lem before after line (version_phase phase (fresh e))) [
        | inl (failed, closed, kept) ↦ rejected failed (kept ∙ same)
        | inr (next, kept, announced) ↦
            awaiting_password line next (rw e refl) announced (kept ∙ same)
      ]
  step-Progress (awaiting_password first phase e announced same) =
      let answered =
        subst (Authenticated password before line) (password_phase phase)
          (receive_password_lem env password before line) in
      elim answered [
        | inl (failed, closed, kept) ↦ rejected failed (kept ∙ same)
        | inr (logged, kept, right, supported) ↦ passed [] (rw (e, announced supported, right) refl)
      ]
  step-Progress (rejected phase same) =
      let stays = failed_phase phase in
      subst (Progress password tables (lines ++ line ∷ [])) stays (rejected phase same)

Received-Progress :
    (commands : Commands) (password : List ℕ) (start client : Client) (lines : List (List ℕ))
    → start.phase ≡ phase_await_version
    → Received commands password start lines client
    → Progress password start.session.channels lines client
Received-Progress commands password start _ _ new connected = awaiting_version new refl refl
Received-Progress commands password start _ _ new
      (received lines before after env behind line so_far fresh run) =
    step-Progress commands env password behind line start.session.channels lines before after run
      fresh (Received-Progress commands password start before lines new so_far)

-- The lines begin as those of an authenticated client do.
abbrev pub IsAuthenticated : List ℕ → List (List ℕ) → Type 0
IsAuthenticated password lines = (rest : List (List ℕ)) × (lines ≡ codes "v1" ∷ password ∷ rest)

-- Whatever lines a new connection receives, and whatever the environment answers: unless the first
-- line was "v1" and the second one the server's password, the session is not logged in, and no
-- channel was opened, changed or removed.
pub Received-IsAuthenticated :
    (commands : Commands) (password : List ℕ) (start client : Client) (lines : List (List ℕ))
    → start.phase ≡ phase_await_version
    → Received commands password start lines client
    → IsAuthenticated password lines
      ⊎ ((client.phase ≢ phase_logged_in) × (client.session.channels ≡ start.session.channels))
Received-IsAuthenticated commands password start client lines new so_far =
    elim (Received-Progress commands password start client lines new so_far) [
      | passed rest e ↦ inl (rest, e)
      | awaiting_version phase e same ↦ inr (λ logged. omega arith, same)
      | awaiting_password line phase e announced same ↦ inr (λ logged. omega arith, same)
      | rejected phase same ↦ inr (λ logged. omega arith, same)
    ]
