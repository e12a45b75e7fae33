-- ===== src/Channels/Table.antt =====
-- The table of channels as a map from IDs to channels (`get_channel`, `put_channel`, `pop_channel`
-- and `request_channel_destruction` of src/channels.c).
pub mod Writes
use xprc_server_plugin_c.Common.{
  ℕ, zero, suc, ◌+◌, ◌*◌, ◌/◌, ◌%◌, ◌<◌, ◌≡◌, refl, ◌∙◌, ◌⊎◌, inl, inr, fun_ext, sym, [], ◌∷◌,
  arith, get_or, set, length, length-set, get_or-set, get_or-replicate, length-replicate, Bool,
  true, false, Option, none, some, ◌==◌, if◌then◌else◌, ◌&&◌, is_some, ==_iff, subst, Bool-cases,
  Option-cases, ap,
}
use xprc_server_plugin_c.Common.Bits.{bit_and-six}
use xprc_server_plugin_c.Common.Run.{ok}
use xprc_server_plugin_c.Channels.{
  Channel, ChannelsSubtable, ChannelsTable, channels_segment, channels_num_subtables,
  empty_subtable, read_subtable, write_subtable, read_channel, get_channel_in, get_channel,
  is_empty_subtable, pop_channel_in, pop_channel, put_channel_in, put_channel_at, put_channel,
  channel_table_address, channel_subtable_address, create_channels_table,
}

-- The IDs that address a slot of the table.
abbrev pub InTable : ℕ → Type 0
InTable id = (id / 64 < channels_num_subtables) × (id % 64 < channels_segment)

-- A subtable has its size, holds a channel, and holds each channel at the slot of its ID.
abbrev IsPlaced : ℕ → Option ChannelsSubtable → Type 0
IsPlaced a none = Unit {0}
IsPlaced a (some s) =
    (length s ≡ channels_segment)
    × (is_empty_subtable s ≡ false)
    × ((i : ℕ) (c : Channel) → get_or s i none ≡ some c → c.id ≡ a * 64 + i)

abbrev pub IsValid : ChannelsTable → Type 0
IsValid table = (a : ℕ) → IsPlaced a (table.subtables a)

abbrev channel_at : Option ChannelsSubtable → ℕ → Option Channel
channel_at none i = none
channel_at (some s) i = get_or s i none

-- What the table holds, as a map.
unfoldable pub view : ChannelsTable → ℕ → Option Channel
view table id = channel_at (table.subtables (id / 64)) (id % 64)

address : (id : ℕ) → channel_subtable_address id ≡ id % 64
unfolding channel_subtable_address
address id = bit_and-six id

read_channel-get_or :
    (s : ChannelsSubtable) (id : ℕ)
    → id % 64 < channels_segment
    → read_channel s (channel_subtable_address id) ≡ ok (get_or s (id % 64) none)
unfolding read_channel
read_channel-get_or s id h = rw (address id) (ground arith)

get_channel_in-channel_at :
    (s : Option ChannelsSubtable) (id : ℕ)
    → id % 64 < channels_segment
    → get_channel_in s id ≡ ok (channel_at s (id % 64))
unfolding get_channel_in
get_channel_in-channel_at none id h = refl
get_channel_in-channel_at (some s) id h = read_channel-get_or s id h

read_subtable-lt :
    (table : ChannelsTable) (id : ℕ)
    → InTable id
    → read_subtable table (channel_table_address id) ≡ ok (table.subtables (id / 64))
unfolding read_subtable channel_table_address
read_subtable-lt table id h = ground arith

-- Inside the table, `get_channel` reads the map.
pub get_channel-view :
    (table : ChannelsTable) (id : ℕ) → InTable id → get_channel table id ≡ ok (view table id)
unfolding view
get_channel-view table id h =
    unfold get_channel in
    rw (read_subtable-lt table id h) (get_channel_in-channel_at (table.subtables (id / 64)) id h.1)

view-write :
    (table : ChannelsTable) (a j : ℕ) (s : Option ChannelsSubtable)
    → view (write_subtable table a s) j
      ≡ (if a == j / 64 then channel_at s (j % 64) else view table j)
unfolding view write_subtable
view-write table a j s = ground arith

write-IsValid :
    (table : ChannelsTable) (a : ℕ) (s : Option ChannelsSubtable)
    → IsValid table
    → IsPlaced a s
    → IsValid (write_subtable table a s)
unfolding write_subtable
write-IsValid table a s v p b = elim (Bool-cases (a == b)) [
  | inl same ↦ rw same (subst (λ c. IsPlaced c s) ((==_iff a b).0 same) p)
  | inr other ↦ rw other (v b)
]

not_empty :
    (s : ChannelsSubtable) (i : ℕ) (c : Channel)
    → i < length s
    → is_empty_subtable (set s i (some c)) ≡ false
unfolding is_empty_subtable
not_empty [] i c h = absurd (omega arith)
not_empty (x ∷ s) zero c h = refl
not_empty (none ∷ s) (suc i) c h = not_empty s i c (omega arith)
not_empty (some x ∷ s) (suc i) c h = refl

-- An empty subtable has no channel in any slot.
empty_none : (s : ChannelsSubtable) (i : ℕ) → is_empty_subtable s ≡ true → get_or s i none ≡ none
unfolding is_empty_subtable
empty_none [] i h = refl
empty_none (none ∷ s) zero h = refl
empty_none (none ∷ s) (suc i) h = empty_none s i h
empty_none (some x ∷ s) i h = cc

-- Writing a channel at its slot.
module _ (a i : ℕ) (s : ChannelsSubtable) (within : i < channels_segment) where
  set-IsPlaced :
      (c : Channel)
      → length s ≡ channels_segment
      → ((j : ℕ) (d : Channel) → get_or s j none ≡ some d → d.id ≡ a * 64 + j)
      → c.id ≡ a * 64 + i
      → IsPlaced a (some (set s i (some c)))
  set-IsPlaced c sized homes home = (
    length-set s i (some c) ∙ sized,
    not_empty s i c (omega arith),
    λ j d e. ground (arith, get_or-set s i j (some c) none, homes j d),
  )

  clear-IsPlaced :
      IsPlaced a (some s)
      → IsPlaced a (if is_empty_subtable (set s i none) then none else some (set s i none))
  clear-IsPlaced (sized, full, homes) = elim (Bool-cases (is_empty_subtable (set s i none))) [
    | inl empty ↦ rw empty tt
    | inr left ↦ rw left (
      length-set s i none ∙ sized,
      left,
      λ j d e. ground (arith, get_or-set s i j none none, homes j d),
    )
  ]

  -- Freeing an empty subtable changes nothing for a reader.
  channel_at-clear :
      (j : ℕ)
      → length s ≡ channels_segment
      → channel_at (if is_empty_subtable (set s i none) then none else some (set s i none)) j
        ≡ (if i == j then none else get_or s j none)
  channel_at-clear j sized = ground (arith, get_or-set s i j none none, empty_none (set s i none) j)

same_address : (i j : ℕ) → (i == j) ≡ ((i / 64 == j / 64) && (i % 64 == j % 64))
same_address i j = ground arith

same-view :
    (table : ChannelsTable) (a j : ℕ) (s : Option ChannelsSubtable)
    → table.subtables a ≡ s
    → (a == j / 64) ≡ true
    → view table j ≡ channel_at s (j % 64)
unfolding view
same-view table a j s e same =
    subst (λ b. channel_at (table.subtables b) (j % 64) ≡ channel_at s (j % 64))
      ((==_iff a (j / 64)).0 same) (ap (λ t. channel_at t (j % 64)) e)

-- The result of removing an ID: what was there, and a table that reads as before elsewhere.
pub record Pops (table : ChannelsTable) (id : ℕ) (r : Option Channel × ChannelsTable) : Type 0 where
  pub returned : r.0 ≡ view table id
  pub keeps : IsValid r.1
  pub reads : (j : ℕ) → view r.1 j ≡ (if id == j then none else view table j)

pop_channel_in-Pops :
    (table : ChannelsTable) (id : ℕ) (s : Option ChannelsSubtable)
    → InTable id
    → IsValid table
    → table.subtables (id / 64) ≡ s
    → (r : Option Channel × ChannelsTable) × (pop_channel_in table s id ≡ ok r) × Pops table id r
unfolding pop_channel_in channel_table_address
pop_channel_in-Pops table id none h v e = (
  (none, table),
  refl,
  record {
    returned = unfold view in rw e;
    keeps = v;
    reads = λ j. unfold view in ground (arith, same_address id j);
  },
)
pop_channel_in-Pops table id (some s) h v e =
    let placed : IsPlaced (id / 64) (some s) = subst (IsPlaced (id / 64)) e (v (id / 64)) in
    let i = id % 64 in
    let left = if is_empty_subtable (set s i none) then none else some (set s i none) in
    (
      (get_or s i none, write_subtable table (id / 64) left),
      rw (read_channel-get_or s id h.1, address id),
      record {
        returned = unfold view in rw e;
        keeps = write-IsValid table (id / 64) left v (clear-IsPlaced (id / 64) i s h.1 placed);
        reads = λ j. ground (
          arith,
          view-write table (id / 64) j left,
          same_address id j,
          same-view table (id / 64) j (some s) e,
          channel_at-clear (id / 64) i s h.1 (j % 64) placed.0,
        );
      },
    )

-- `pop_channel` on a valid table with an ID inside it returns what the map holds at the ID, clears
-- that entry alone and keeps the table valid.
pub pop_channel-Pops :
    (table : ChannelsTable) (id : ℕ)
    → InTable id
    → IsValid table
    → (r : Option Channel × ChannelsTable) × (pop_channel table id ≡ ok r) × Pops table id r
pop_channel-Pops table id h v =
    let (r, run, pops) = pop_channel_in-Pops table id (table.subtables (id / 64)) h v refl in
    (r, (unfold pop_channel in rw (read_subtable-lt table id h) run), pops)

write-write :
    (table : ChannelsTable) (a : ℕ) (s t : Option ChannelsSubtable)
    → write_subtable (write_subtable table a s) a t ≡ write_subtable table a t
unfolding write_subtable
write-write table a s t =
    ap (λ f. record { destruction_pending = table.destruction_pending; subtables = f })
      (fun_ext λ b. ground arith)

-- The outcome `r` of registering a channel: refused with the table unchanged, or one entry added.
pub record Puts (allocated : Bool) (table : ChannelsTable) (channel : Channel)
    (r : Bool × ChannelsTable) : Type 0 where
  pub refuses :
      (table.destruction_pending ≡ true) ⊎ (is_some (view table channel.id) ≡ true)
      → r ≡ (false, table)
  pub unchanged : r.0 ≡ false → r.1 ≡ table
  pub accepts :
      table.destruction_pending ≡ false
      → allocated ≡ true
      → view table channel.id ≡ none
      → r.0 ≡ true
  pub keeps : IsValid r.1
  pub reads :
      (j : ℕ) → view r.1 j ≡ (if r.0 && (channel.id == j) then some channel else view table j)

-- A subtable `s` that reads as what the table has at the address, with the slot still free.
module _ (table : ChannelsTable) (channel : Channel) (s : ChannelsSubtable) (h : InTable channel.id)
    (v : IsValid table) (sized : length s ≡ channels_segment)
    (reads : (k : ℕ) → channel_at (table.subtables (channel.id / 64)) k ≡ get_or s k none)
    (homes : (k : ℕ) (d : Channel)
      → get_or s k none ≡ some d
      → d.id ≡ channel.id / 64 * 64 + k) where
  abbrev filled : ChannelsTable
  filled = write_subtable table (channel.id / 64) (some (set s (channel.id % 64) (some channel)))

  filled-IsValid : IsValid filled
  filled-IsValid =
      write-IsValid table (channel.id / 64) _ v
        (set-IsPlaced (channel.id / 64) (channel.id % 64) s h.1 channel sized homes (omega arith))

  view-filled : (j : ℕ) → view filled j ≡ (if channel.id == j then some channel else view table j)
  view-filled j = ground (
    arith,
    view-write table (channel.id / 64) j (some (set s (channel.id % 64) (some channel))),
    same_address channel.id j,
    same-view table (channel.id / 64) j (table.subtables (channel.id / 64)) refl,
    reads (j % 64),
    get_or-set s (channel.id % 64) (j % 64) (some channel) none,
  )

  filled-Puts :
      (allocated : Bool)
      → table.destruction_pending ≡ false
      → get_or s (channel.id % 64) none ≡ none
      → Puts allocated table channel (true, filled)
  filled-Puts allocated live free =
      let absent : view table channel.id ≡ none = unfold view in (reads (channel.id % 64) ∙ free) in
      record {
        refuses = ground arith;
        unchanged = λ e. cc;
        accepts = λ _ _ _. refl;
        keeps = filled-IsValid;
        reads = view-filled;
      }

refused-Puts :
    (allocated : Bool) (table : ChannelsTable) (channel : Channel)
    → IsValid table
    → (allocated ≡ false)
      ⊎ (table.destruction_pending ≡ true)
      ⊎ (is_some (view table channel.id) ≡ true)
    → Puts allocated table channel (false, table)
refused-Puts allocated table channel v why = record {
  refuses = λ _. refl;
  unchanged = λ _. refl;
  accepts = λ live memory free. elim why [
    | inl e ↦ cc
    | inr (inl e) ↦ cc
    | inr (inr e) ↦ let f : is_some (view table channel.id) ≡ false = rw free in cc
  ];
  keeps = v;
  reads = λ j. refl;
}

put_channel_in-run :
    (table : ChannelsTable) (s : ChannelsSubtable) (channel : Channel)
    → channel.id % 64 < channels_segment
    → put_channel_in table s channel
      ≡ ok (
          if is_some (get_or s (channel.id % 64) none) then (false, table) else (
            true,
            write_subtable table (channel.id / 64) (some (set s (channel.id % 64) (some channel))),
          ))
unfolding put_channel_in channel_table_address
put_channel_in-run table s channel h = rw (read_channel-get_or s channel.id h, address channel.id)

module _ (allocated : Bool) (table : ChannelsTable) (channel : Channel) (h : InTable channel.id)
    (v : IsValid table) (live : table.destruction_pending ≡ false) where
  put_channel_at-Puts :
      (s : Option ChannelsSubtable)
      → table.subtables (channel.id / 64) ≡ s
      → (r : Bool × ChannelsTable) × (put_channel_at allocated table s channel ≡ ok r)
        × Puts allocated table channel r
  unfolding put_channel_at channel_table_address
  put_channel_at-Puts (some s) e =
      let placed : IsPlaced (channel.id / 64) (some s) =
        subst (IsPlaced (channel.id / 64)) e (v (channel.id / 64)) in
      let here : view table channel.id ≡ get_or s (channel.id % 64) none = unfold view in rw e in
      let run = put_channel_in-run table s channel h.1 in
      elim (Option-cases (get_or s (channel.id % 64) none)) [
        | inl free ↦ (
          (true, filled table channel s h v placed.0 (λ k. rw e) placed.2),
          run ∙ rw free,
          filled-Puts table channel s h v placed.0 (λ k. rw e) placed.2 allocated live free,
        )
        | inr (old, taken) ↦ (
          (false, table),
          run ∙ rw taken,
          refused-Puts allocated table channel v (inr (inr (rw (here, taken)))),
        )
      ]
  put_channel_at-Puts none e = fresh allocated refl
    where
      fresh :
          (m : Bool)
          → allocated ≡ m
          → (r : Bool × ChannelsTable) × (put_channel_at m table none channel ≡ ok r)
            × Puts allocated table channel r
      fresh false q = ((false, table), refl, refused-Puts allocated table channel v (inl q))
      fresh true q =
          let vacant : Option Channel = none in
          let blank = λ (k : ℕ). get_or-replicate channels_segment k vacant in
          let sized = length-replicate channels_segment vacant in
          let reads : (k : ℕ)
              → channel_at (table.subtables (channel.id / 64)) k ≡ get_or empty_subtable k none =
            λ k. rw e (sym (blank k)) in
          let homes : (k : ℕ) (d : Channel)
              → get_or empty_subtable k none ≡ some d
              → d.id ≡ channel.id / 64 * 64 + k =
            λ k d f. let g = blank k in cc in
          (
            (true, filled table channel empty_subtable h v sized reads homes),
            put_channel_in-run _ empty_subtable channel h.1
                ∙ rw (blank (channel.id % 64), write-write),
            filled-Puts table channel empty_subtable h v sized reads homes allocated live
                (blank (channel.id % 64)),
          )

put_channel-live :
    (allocated : Bool) (table : ChannelsTable) (channel : Channel)
    → InTable channel.id
    → table.destruction_pending ≡ false
    → put_channel allocated table channel
      ≡ put_channel_at allocated table (table.subtables (channel.id / 64)) channel
put_channel-live allocated table channel h live =
    unfold put_channel in simp live (rw (read_subtable-lt table channel.id h))

-- `put_channel` on a valid table with an ID inside it returns and keeps the table valid. It refuses
-- while destruction is pending and where the ID is taken, accepts a free ID otherwise where there is
-- memory, changes nothing if it refuses, and adds the one entry if it does not.
pub put_channel-Puts :
    (allocated : Bool) (table : ChannelsTable) (channel : Channel)
    → InTable channel.id
    → IsValid table
    → (r : Bool × ChannelsTable) × (put_channel allocated table channel ≡ ok r)
      × Puts allocated table channel r
put_channel-Puts allocated table channel h v = elim (Bool-cases table.destruction_pending) [
  | inl pending ↦ (
    (false, table),
    unfold put_channel in rw pending,
    refused-Puts allocated table channel v (inr (inl pending)),
  )
  | inr live ↦
      let (r, run, puts) =
        put_channel_at-Puts allocated table channel h v live (table.subtables (channel.id / 64))
          refl in
      (r, put_channel-live allocated table channel h live ∙ run, puts)
]

-- A new table is valid and holds nothing.
pub create_channels_table_lem :
    IsValid create_channels_table × ((id : ℕ) → view create_channels_table id ≡ none)
unfolding view
create_channels_table_lem = (λ a. tt, λ id. refl)

-- In a valid table that is not being destroyed, a channel registered under a free ID inside it is
-- found, comes back when its ID is removed, and leaves the table reading as before.
pub pop-put_channel :
    (table : ChannelsTable) (channel : Channel)
    → InTable channel.id
    → IsValid table
    → table.destruction_pending ≡ false
    → view table channel.id ≡ none
    → (after cleared : ChannelsTable) × (put_channel true table channel ≡ ok (true, after))
      × (get_channel after channel.id ≡ ok (some channel))
      × (pop_channel after channel.id ≡ ok (some channel, cleared))
      × (get_channel cleared channel.id ≡ ok none)
      × ((j : ℕ) → view cleared j ≡ view table j)
pop-put_channel table channel h v live free =
    let (r, put, puts) = put_channel-Puts true table channel h v in
    let stored : r.0 ≡ true = puts.accepts live refl free in
    let found : view r.1 channel.id ≡ some channel = ground (arith, puts.reads channel.id) in
    let (q, pop, pops) = pop_channel-Pops r.1 channel.id h puts.keeps in
    (
      r.1,
      q.1,
      put ∙ ground arith,
      get_channel-view r.1 channel.id h ∙ rw found,
      pop ∙ ground (arith, pops.returned),
      get_channel-view q.1 channel.id h ∙ ground (arith, pops.reads channel.id),
      λ j. elim (Bool-cases (channel.id == j)) [
        | inl same ↦
            pops.reads j
            ∙ rw same (subst (λ i. none ≡ view table i) ((==_iff channel.id j).0 same) (sym free))
        | inr other ↦ pops.reads j ∙ ground (arith, puts.reads j)
      ],
    )
