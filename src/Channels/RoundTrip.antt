-- ===== src/Channels/RoundTrip.antt =====
-- Channel IDs as strings (`string_to_channel_id` and `channel_id_to_string` of src/channels.c).
use xprc_server_plugin_c.Common.{
  ◌∙◌, ℕ, suc, ◌+◌, ◌*◌, ◌/◌, ◌%◌, ◌^◌, ◌≤◌, ◌<◌, ◌≡◌, ◌≢◌, ◌⊎◌, inl, inr, ◌↔◌, List, ◌∷◌, arith,
  get_or, bit_or, bit_and, ap,
}
use xprc_server_plugin_c.Common.Bits.{bit_or-six, bit_and-six}
use xprc_server_plugin_c.Channels.{
  bad_channel_id_segment, bad_channel_id, char_to_channel_id_segment, channel_id_segment_to_char,
  string_to_channel_id_loop, string_to_channel_id, channel_id_to_string_loop, channel_id_to_string,
}

-- The characters of a channel name: a-z, A-Z and 0-9.
abbrev pub IsAlphanumeric : ℕ → Type 0
IsAlphanumeric c = ((b'a' ≤ c) × (c ≤ b'z')) ⊎ ((b'A' ≤ c) × (c ≤ b'Z')) ⊎ ((b'0' ≤ c) × (c ≤ b'9'))

-- A string that begins with a channel name: its first four bytes, a zero byte behind the end.
abbrev pub IsChannelName : List ℕ → Type 0
IsChannelName s =
    IsAlphanumeric (get_or s 0 0)
    × IsAlphanumeric (get_or s 1 0)
    × IsAlphanumeric (get_or s 2 0)
    × IsAlphanumeric (get_or s 3 0)

segment_lt : (c : ℕ) → IsAlphanumeric c → char_to_channel_id_segment c < 62
unfolding char_to_channel_id_segment
segment_lt c h = ground arith

segment_bad :
    (c : ℕ)
    → (IsAlphanumeric c × (char_to_channel_id_segment c < 62))
      ⊎ ((¬ IsAlphanumeric c) × (char_to_channel_id_segment c ≡ bad_channel_id_segment))
unfolding char_to_channel_id_segment
segment_bad c = ground arith

char-segment :
    (c : ℕ) → IsAlphanumeric c → channel_id_segment_to_char (char_to_channel_id_segment c) ≡ c
unfolding char_to_channel_id_segment channel_id_segment_to_char
char-segment c h = ground arith

segment-char : (x : ℕ) → x < 62 → char_to_channel_id_segment (channel_id_segment_to_char x) ≡ x
unfolding char_to_channel_id_segment channel_id_segment_to_char
segment-char x h = ground arith

pub IsAlphanumeric-char : (x : ℕ) → x < 62 → IsAlphanumeric (channel_id_segment_to_char x)
unfolding channel_id_segment_to_char
IsAlphanumeric-char x h = ground arith

segment_at : List ℕ → ℕ → ℕ
segment_at s i = char_to_channel_id_segment (get_or s i 0)

-- One round on a valid segment appends six bits.
shift_in : (id x : ℕ) → id < 2 ^ 26 → x < 62 → bit_or (id * 64 % 2 ^ 32) x ≡ id * 64 + x
shift_in id x h k = ground (arith, bit_or-six id x)

abbrev join_segments : ℕ → ℕ → ℕ → ℕ → ℕ
join_segments a b c d = (((0 + a) * 64 + b) * 64 + c) * 64 + d

loop_step :
    (n i id : ℕ) (s : List ℕ)
    → id < 2 ^ 26
    → segment_at s i < 62
    → string_to_channel_id_loop (suc n) i id s
      ≡ string_to_channel_id_loop n (i + 1) (id * 64 + segment_at s i) s
unfolding string_to_channel_id_loop segment_at
loop_step n i id s h k = rw (shift_in id (segment_at s i) h k) (ground arith)

loop_stop :
    (n i id : ℕ) (s : List ℕ)
    → segment_at s i ≡ bad_channel_id_segment
    → string_to_channel_id_loop (suc n) i id s ≡ bad_channel_id
unfolding string_to_channel_id_loop segment_at
loop_stop n i id s h = ground arith

module _ (s : List ℕ) where
  abbrev segments : ℕ
  segments = join_segments (segment_at s 0) (segment_at s 1) (segment_at s 2) (segment_at s 3)

  string_to_channel_id-join :
      segment_at s 0 < 62
      → segment_at s 1 < 62
      → segment_at s 2 < 62
      → segment_at s 3 < 62
      → string_to_channel_id s ≡ segments
  unfolding string_to_channel_id
  string_to_channel_id-join ha hb hc hd =
      loop_step 3 0 0 s (omega arith) ha
      ∙ loop_step 2 1 _ s (omega arith) hb
      ∙ loop_step 1 2 _ s (omega arith) hc
      ∙ loop_step 0 3 _ s (omega arith) hd

  -- A string gives the join of its segments, or the bad ID, as its first four bytes decide.
  string_to_channel_id-cases :
      (IsChannelName s
        × (segment_at s 0 < 62)
        × (segment_at s 1 < 62)
        × (segment_at s 2 < 62)
        × (segment_at s 3 < 62)
        × (string_to_channel_id s ≡ segments))
      ⊎ ((¬ IsChannelName s) × (string_to_channel_id s ≡ bad_channel_id))
  unfolding string_to_channel_id segment_at
  string_to_channel_id-cases = elim (segment_bad (get_or s 0 0)) [
    | inr (other, e) ↦ inr (λ h. other h.0, loop_stop 3 0 0 s e)
    | inl (ha, la) ↦ elim (segment_bad (get_or s 1 0)) [
      | inr (other, e) ↦
          inr (λ h. other h.1, loop_step 3 0 0 s (omega arith) la ∙ loop_stop 2 1 _ s e)
      | inl (hb, lb) ↦ elim (segment_bad (get_or s 2 0)) [
        | inr (other, e) ↦ inr (
          λ h. other h.2,
          loop_step 3 0 0 s (omega arith) la
              ∙ loop_step 2 1 _ s (omega arith) lb
              ∙ loop_stop 1 2 _ s e,
        )
        | inl (hc, lc) ↦ elim (segment_bad (get_or s 3 0)) [
          | inr (other, e) ↦ inr (
            λ h. other h.3,
            loop_step 3 0 0 s (omega arith) la
                ∙ loop_step 2 1 _ s (omega arith) lb
                ∙ loop_step 1 2 _ s (omega arith) lc
                ∙ loop_stop 0 3 _ s e,
          )
          | inl (hd, ld) ↦
              inl ((ha, hb, hc, hd), la, lb, lc, ld, string_to_channel_id-join la lb lc ld)
        ]
      ]
    ]
  ]

-- A string yields a proper ID exactly when it begins with four alphanumeric characters, and such an
-- ID has 24 bits.
pub string_to_channel_id_valid :
    (s : List ℕ)
    → ((string_to_channel_id s ≢ bad_channel_id) ↔ IsChannelName s)
      × ((string_to_channel_id s ≡ bad_channel_id) ⊎ (string_to_channel_id s < 2 ^ 24))
string_to_channel_id_valid s = elim (string_to_channel_id-cases s) [
  | inl (name, a, b, c, d, e) ↦ ((λ _. name, λ _ bad. omega arith), inr (omega arith))
  | inr (other, e) ↦ ((λ good. absurd (good e), λ name. absurd (other name)), inl e)
]

abbrev pub four : ℕ → ℕ → ℕ → ℕ → List ℕ → List ℕ
four a b c d rest = a ∷ b ∷ c ∷ d ∷ rest

channel_id_to_string-join :
    (a b c d w x y z : ℕ) (rest : List ℕ)
    → a < 62
    → b < 62
    → c < 62
    → d < 62
    → channel_id_to_string (join_segments a b c d) (four w x y z rest)
      ≡ four
          (channel_id_segment_to_char a)
          (channel_id_segment_to_char b)
          (channel_id_segment_to_char c)
          (channel_id_segment_to_char d)
          rest
unfolding channel_id_to_string_loop
channel_id_to_string-join a b c d w x y z rest ha hb hc hd =
    let id = join_segments a b c d in
    let last : bit_and id 63 ≡ d = omega (arith, bit_and-six id) in
    let third : bit_and (id / 64) 63 ≡ c = omega (arith, bit_and-six (id / 64)) in
    let second : bit_and (id / 64 / 64) 63 ≡ b = omega (arith, bit_and-six (id / 64 / 64)) in
    let first : bit_and (id / 64 / 64 / 64) 63 ≡ a =
      omega (arith, bit_and-six (id / 64 / 64 / 64)) in
    unfold channel_id_to_string in rw (last, third, second, first)

-- Formatting the ID of a channel name gives the name back and writes only the first four bytes of
-- the destination.
pub to_string-to_channel_id :
    (a b c d w x y z : ℕ) (rest destination : List ℕ)
    → IsAlphanumeric a
    → IsAlphanumeric b
    → IsAlphanumeric c
    → IsAlphanumeric d
    → channel_id_to_string (string_to_channel_id (four a b c d rest)) (four w x y z destination)
      ≡ four a b c d destination
unfolding segment_at
to_string-to_channel_id a b c d w x y z rest destination ha hb hc hd =
    let la = segment_lt a ha in
    let lb = segment_lt b hb in
    let lc = segment_lt c hc in
    let ld = segment_lt d hd in
    rw (
      string_to_channel_id-join (four a b c d rest) la lb lc ld,
      channel_id_to_string-join _ _ _ _ w x y z destination la lb lc ld,
      char-segment a ha,
      char-segment b hb,
      char-segment c hc,
      char-segment d hd,
    )

-- The IDs whose four segments each stand for a character.
abbrev pub IsChannelId : ℕ → Type 0
IsChannelId id =
    (id / 64 / 64 / 64 < 62) × (id / 64 / 64 % 64 < 62) × (id / 64 % 64 < 62) × (id % 64 < 62)

-- Reading the name of an ID whose four segments each stand for a character gives the ID back.
pub to_channel_id-to_string :
    (id w x y z : ℕ) (destination : List ℕ)
    → IsChannelId id
    → string_to_channel_id (channel_id_to_string id (four w x y z destination)) ≡ id
unfolding segment_at
to_channel_id-to_string id w x y z destination (ha, hb, hc, hd) =
    let a = id / 64 / 64 / 64 in
    let b = id / 64 / 64 % 64 in
    let c = id / 64 % 64 in
    let d = id % 64 in
    let ea = segment-char a ha in
    let eb = segment-char b hb in
    let ec = segment-char c hc in
    let ed = segment-char d hd in
    let joined : id ≡ join_segments a b c d = omega arith in
    let name =
      four (channel_id_segment_to_char a) (channel_id_segment_to_char b)
        (channel_id_segment_to_char c) (channel_id_segment_to_char d) destination in
    let printed : channel_id_to_string id (four w x y z destination) ≡ name =
      ap (λ (i : ℕ). channel_id_to_string i (four w x y z destination)) joined
      ∙ channel_id_to_string-join a b c d w x y z destination ha hb hc hd in
    rw printed (
      omega (
        arith,
        string_to_channel_id-join name (omega arith) (omega arith) (omega arith) (omega arith),
      ))

-- The name of such an ID has four alphanumeric characters.
pub channel_id_to_string_name :
    (id w x y z : ℕ)
    → IsChannelId id
    → (a b c d : ℕ) × ((destination : List ℕ)
        → channel_id_to_string id (four w x y z destination) ≡ four a b c d destination)
      × IsAlphanumeric a
      × IsAlphanumeric b
      × IsAlphanumeric c
      × IsAlphanumeric d
channel_id_to_string_name id w x y z (ha, hb, hc, hd) =
    let a = id / 64 / 64 / 64 in
    let b = id / 64 / 64 % 64 in
    let c = id / 64 % 64 in
    let d = id % 64 in
    let joined : id ≡ join_segments a b c d = omega arith in
    (
      channel_id_segment_to_char a,
      channel_id_segment_to_char b,
      channel_id_segment_to_char c,
      channel_id_segment_to_char d,
      λ destination.
          ap (λ (i : ℕ). channel_id_to_string i (four w x y z destination)) joined
          ∙ channel_id_to_string-join a b c d w x y z destination ha hb hc hd,
      IsAlphanumeric-char a ha,
      IsAlphanumeric-char b hb,
      IsAlphanumeric-char c hc,
      IsAlphanumeric-char d hd,
    )

-- A channel name gives an ID of four proper segments, the first of which is that of its first byte.
pub string_to_channel_id-IsChannelId :
    (s : List ℕ)
    → IsChannelName s
    → IsChannelId (string_to_channel_id s)
      × (string_to_channel_id s / 64 / 64 / 64 ≡ char_to_channel_id_segment (get_or s 0 0))
unfolding segment_at
string_to_channel_id-IsChannelId s name = elim (string_to_channel_id-cases s) [
  | inl (_, a, b, c, d, e) ↦ omega arith
  | inr (other, e) ↦ absurd (other name)
]
