-- ===== src/Network/Sending.antt =====
-- The ring buffer of src/network.c as a queue of bytes.
pub mod Fifo
use xprc_server_plugin_c.Common.{
  ℕ, zero, suc, ◌+◌, ◌-◌, ◌*◌, ◌≤◌, ◌<◌, min, ◌≡◌, ◌≢◌, ◌↔◌, ◌⊎◌, refl, ◌∙◌, sym, ap, ap₂, subst,
  inl, inr, arith, Bool, true, false, ◌&&◌, ◌||◌, not, Option, none, some, List, [], ◌∷◌, ◌++◌, ltb,
  leb, ◌==◌, if◌then◌else◌, get_or, length, take, drop, length-take, length-drop, get_or-take,
  get_or-drop, append_assoc, append-nil, length-append, take-append-drop, Bool-cases,
}
use xprc_server_plugin_c.Common.Run.{Run, ok, fault, ◌>>=◌}
use xprc_server_plugin_c.Network.{
  Connection, advance, advance_by, capacity_to_read_pos, choose_chunk, copied, copy_to_ring,
  send_buffer_size, send_chunk_size, send_to_network, slice, wrapped, write_ring,
}
use xprc_server_plugin_c.Errors.{
  error_none, error_unspecific, network_error_capacity, network_error_shutdown,
}

-- The position `i` bytes behind another one.
abbrev behind : ℕ → ℕ → ℕ
behind position i =
    if leb send_buffer_size (position + i) then position + i - send_buffer_size else position + i

-- `count` bytes from a position on, past the end of the ring at its start.
unfoldable pub around : (ℕ → ℕ) → ℕ → ℕ → List ℕ
unfolding wrapped
around memory position zero = []
around memory position (suc n) = memory position ∷ around memory (wrapped (position + 1)) n

wrapped-behind :
    (position i : ℕ)
    → position < send_buffer_size
    → i < send_buffer_size
    → behind (wrapped (position + 1)) i ≡ behind position (suc i)
unfolding wrapped
wrapped-behind position i inside short = ground arith

wrapped_lt :
    (position : ℕ) → position < send_buffer_size → wrapped (position + 1) < send_buffer_size
unfolding wrapped
wrapped_lt position inside = ground arith

behind_zero : (position : ℕ) → position < send_buffer_size → behind position 0 ≡ position
behind_zero position inside = ground arith

-- What is read around the ring is known byte by byte.
around_all :
    (memory : ℕ → ℕ) (position : ℕ) (content : List ℕ)
    → position < send_buffer_size
    → length content ≤ send_buffer_size
    → ((i : ℕ) → i < length content → memory (behind position i) ≡ get_or content i 0)
    → around memory position (length content) ≡ content
unfolding around
around_all memory position [] inside short reads = refl
around_all memory position (c ∷ content) inside short reads =
    ap₂ ◌∷◌ (ap memory (sym (behind_zero position inside)) ∙ reads 0 (omega arith)) (
      around_all memory (wrapped (position + 1)) content (wrapped_lt position inside) (omega arith)
        (λ i h.
          ap memory (wrapped-behind position i inside (omega arith)) ∙ reads (suc i) (omega arith)))

around_same :
    (memory other : ℕ → ℕ) (position n : ℕ)
    → position < send_buffer_size
    → n ≤ send_buffer_size
    → ((i : ℕ) → i < n → memory (behind position i) ≡ other (behind position i))
    → around memory position n ≡ around other position n
unfolding around
around_same memory other position zero inside short same = refl
around_same memory other position (suc n) inside short same =
    ap₂ ◌∷◌
      (ap memory (sym (behind_zero position inside))
        ∙ same 0 (omega arith)
        ∙ ap other (behind_zero position inside))
      (around_same memory other (wrapped (position + 1)) n (wrapped_lt position inside)
        (omega arith)
        (λ i h.
          let step = wrapped-behind position i inside (omega arith) in
          ap memory step ∙ same (suc i) (omega arith) ∙ ap other (sym step)))

around-add :
    (memory : ℕ → ℕ) (position a b : ℕ)
    → position < send_buffer_size
    → a ≤ send_buffer_size
    → around memory position (a + b)
      ≡ around memory position a ++ around memory (behind position a) b
unfolding around
around-add memory position zero b inside short =
    let sum : 0 + b ≡ b = omega arith in rw (sum, behind_zero position inside)
around-add memory position (suc a) b inside short =
    let sum : suc a + b ≡ suc (a + b) = omega arith in
    rw (sum, sym (wrapped-behind position a inside (omega arith)))
      (ap (◌∷◌ (memory position))
        (around-add memory (wrapped (position + 1)) a b (wrapped_lt position inside) (omega arith)))

-- A piece that does not cross the end of the ring.
slice-around :
    (memory : ℕ → ℕ) (position n : ℕ)
    → position + n ≤ send_buffer_size
    → slice memory position n ≡ around memory position n
unfolding slice around
slice-around memory position zero inside = refl
slice-around memory position (suc zero) inside = refl
slice-around memory position (suc (suc n)) inside =
    let same : wrapped (position + 1) ≡ position + 1 = unfold wrapped in ground arith in
    rw same (ap (◌∷◌ (memory position)) (slice-around memory (position + 1) (suc n) (omega arith)))

-- The positions are in the ring.
pub record IsValid (c : Connection) : Type 0 where
  pub read : c.send_read_pos < send_buffer_size
  pub write : c.send_write_pos < send_buffer_size

-- How many bytes wait, and which.
abbrev used : Connection → ℕ
used c =
    if leb c.send_read_pos c.send_write_pos
    then c.send_write_pos - c.send_read_pos
    else send_buffer_size - c.send_read_pos + c.send_write_pos

-- What waits to be sent, in order.
unfoldable pub pending : Connection → List ℕ
unfolding around
pending c = around c.send_ringbuffer c.send_read_pos (used c)

capacity-used :
    (c : Connection) → IsValid c → capacity_to_read_pos c ≡ send_buffer_size - 1 - used c
unfolding capacity_to_read_pos
capacity-used c v = ground arith

length-around : (memory : ℕ → ℕ) (position n : ℕ) → length (around memory position n) ≡ n
unfolding around
length-around memory position zero = refl
length-around memory position (suc n) = ap suc (length-around memory (wrapped (position + 1)) n)

length-pending : (c : Connection) → length (pending c) ≡ used c
unfolding pending
length-pending c = length-around c.send_ringbuffer c.send_read_pos (used c)

module _ (c : Connection) (content : List ℕ) (v : IsValid c)
    (fits : length content ≤ send_buffer_size - 1 - used c) where
  abbrev to_end : ℕ
  to_end = min (send_buffer_size - c.send_write_pos) (length content)

  abbrev first : ℕ → ℕ
  first = copied c.send_ringbuffer c.send_write_pos (take to_end content)

  abbrev at_start : ℕ
  at_start = length content - to_end

  memory_after : ℕ → ℕ
  memory_after = if ltb 0 at_start then copied first 0 (drop to_end content) else first

  memory_after-new :
      (i : ℕ) → i < length content → memory_after (behind c.send_write_pos i) ≡ get_or content i 0
  unfolding memory_after copied
  memory_after-new i h = ground (
    arith,
    length-take to_end content,
    length-drop to_end content,
    get_or-take to_end i content 0,
    get_or-drop to_end (c.send_write_pos + i - send_buffer_size) content 0,
  )

  memory_after-old :
      (i : ℕ)
      → i < used c
      → memory_after (behind c.send_read_pos i) ≡ c.send_ringbuffer (behind c.send_read_pos i)
  unfolding memory_after copied
  memory_after-old i h = ground (arith, length-take to_end content, length-drop to_end content)

  written : Connection
  written = record c {
    send_ringbuffer = memory_after;
    send_write_pos = wrapped (c.send_write_pos + to_end) + at_start;
  }

  write_ring-written : write_ring c content ≡ ok (error_none, written)
  unfolding write_ring written memory_after copy_to_ring
  write_ring-written =
      let taken = length-take to_end content in
      let dropped = length-drop to_end content in
      let inside : leb (c.send_write_pos + length (take to_end content)) send_buffer_size ≡ true =
        ground arith in
      elim (Bool-cases (ltb 0 at_start)) [
        | inl more ↦
            let small : leb (0 + length (drop to_end content)) send_buffer_size ≡ true =
              ground arith in
            simp (inside, more, small)
        | inr done ↦ simp (inside, done)
      ]

  written-IsValid : IsValid written × (used written ≡ used c + length content)
  unfolding written wrapped
  written-IsValid = (record { read = v.read; write = ground arith }, ground arith)

  -- The content comes behind what waits.
  pending-written : pending written ≡ pending c ++ content
  unfolding pending written
  pending-written =
      let there : behind c.send_read_pos (used c) ≡ c.send_write_pos = ground arith in
      let small : used c ≤ send_buffer_size = ground arith in
      ap (λ (n : ℕ). around memory_after c.send_read_pos n) written-IsValid.1
      ∙ around-add memory_after c.send_read_pos (used c) (length content) v.read small
      ∙ ap₂ ◌++◌
          (around_same memory_after c.send_ringbuffer c.send_read_pos (used c) v.read small
            memory_after-old)
          (rw there (
            around_all memory_after c.send_write_pos content v.write (omega arith)
              memory_after-new))

-- A chunk that was chosen waits, and does not cross the end of the ring.
abbrev pub IsChosen : Connection → Type 0
IsChosen c =
    (chunk : ℕ)
    → c.chunk ≡ some chunk
    → (chunk ≤ used c) × (c.send_read_pos + chunk ≤ send_buffer_size)

-- The outcome of handing over content: refused as it was, or appended to what waits.
pub record Sends (c : Connection) (content : List ℕ) (r : ℕ × Connection) : Type 0 where
  pub valid : IsValid r.1
  pub chosen : IsChosen c → IsChosen r.1
  pub accepted : r.0 ≡ error_none → pending r.1 ≡ pending c ++ content
  pub refused : r.0 ≢ error_none → r.1 ≡ c

refused-Sends :
    (c : Connection) (content : List ℕ) (e : ℕ)
    → IsValid c
    → e ≢ error_none
    → Sends c content (e, c)
refused-Sends c content e v failed = record {
  valid = v;
  chosen = λ h. h;
  accepted = λ h. absurd (failed h);
  refused = λ _. refl;
}

written-Sends :
    (c : Connection) (content : List ℕ) (v : IsValid c)
    (fits : length content ≤ send_buffer_size - 1 - used c)
    → Sends c content (error_none, written c content v fits)
unfolding written
written-Sends c content v fits = record {
  valid = (written-IsValid c content v fits).0;
  chosen = λ h chunk e.
      let (few, inside) = h chunk e in
      (omega (arith, (written-IsValid c content v fits).1), inside);
  accepted = λ _. pending-written c content v fits;
  refused = λ h. absurd (h refl);
}

-- `send_to_network` on a valid connection never copies past the ring. It appends the content to what
-- waits, or reports an error and changes nothing. It takes the content exactly if the connection is
-- in use, the mutex is had and a byte of the ring stays free.
pub send_to_network-Sends :
    (locked : Bool) (c : Connection) (content : List ℕ)
    → IsValid c
    → (r : ℕ × Connection) × (send_to_network locked c content ≡ ok r)
      × Sends c content r
      × ((r.0 == error_none) ≡ (
          not (c.shutdown || not c.has_send_mutex)
          && locked
          && ltb (length (pending c) + length content) send_buffer_size))
unfolding send_to_network
send_to_network-Sends locked c content v =
    let waiting = length-pending c in
    elim (Bool-cases (c.shutdown || not c.has_send_mutex)) [
      | inl closed ↦ (
        (network_error_shutdown, c),
        simp closed,
        refused-Sends c content network_error_shutdown v (λ e. omega arith),
        rw closed,
      )
      | inr live ↦ elim (Bool-cases locked) [
        | inr missed ↦ (
          (error_unspecific, c),
          simp (live, missed),
          refused-Sends c content error_unspecific v (λ e. omega arith),
          rw (live, missed),
        )
        | inl had ↦ elim (Bool-cases (ltb (capacity_to_read_pos c) (length content))) [
          | inl long ↦ (
            (network_error_capacity, c),
            simp (live, had, long),
            refused-Sends c content network_error_capacity v (λ e. omega arith),
            rw (live, had) (ground (arith, capacity-used c v)),
          )
          | inr short ↦
              let fits : length content ≤ send_buffer_size - 1 - used c =
                ground (arith, capacity-used c v) in
              (
                (error_none, written c content v fits),
                simp (live, had, short) (write_ring-written c content v fits),
                written-Sends c content v fits,
                rw (live, had) (ground arith),
              )
        ]
      ]
    ]
