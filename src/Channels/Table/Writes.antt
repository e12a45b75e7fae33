-- ===== src/Channels/Table/Writes.antt =====
-- A write to a channel through the pointer in the table, seen on the map that the table is.
use xprc_server_plugin_c.Channels.Table.{
  InTable, IsValid, IsPlaced, view, channel_at, view-write, write-IsValid, same_address, same-view,
  address, set-IsPlaced,
}
use xprc_server_plugin_c.Common.{
  ℕ, ◌/◌, ◌%◌, ◌≡◌, subst, arith, Option, none, some, ◌==◌, if◌then◌else◌, get_or-set, set,
  Option-cases, inl, inr,
}
use xprc_server_plugin_c.Channels.{
  Channel, ChannelsSubtable, ChannelsTable, write_channel, set_slot, channel_table_address,
}

-- In a valid table a channel sits under its own ID.
pub view-id :
    (table : ChannelsTable) (id : ℕ) (channel : Channel)
    → IsValid table
    → view table id ≡ some channel
    → channel.id ≡ id
unfolding view
view-id table id channel v e = placed (table.subtables (id / 64)) (v (id / 64)) e
  where
    placed :
        (s : Option ChannelsSubtable)
        → IsPlaced (id / 64) s
        → channel_at s (id % 64) ≡ some channel
        → channel.id ≡ id
    placed none p q = cc
    placed (some s) p q = omega (arith, p.2 (id % 64) channel q)

-- A write of a channel whose ID is kept replaces one entry of the map and keeps the table valid.
pub write_channel_lem :
    (table : ChannelsTable) (id : ℕ) (old channel : Channel)
    → InTable id
    → IsValid table
    → view table id ≡ some old
    → channel.id ≡ id
    → IsValid (write_channel table id channel)
      × ((j : ℕ)
          → view (write_channel table id channel) j
            ≡ (if id == j then some channel else view table j))
unfolding view write_channel set_slot channel_table_address
write_channel_lem table id old channel h v e same =
    elim (Option-cases (table.subtables (id / 64))) [
      | inl missing ↦ absurd (let gone : view table id ≡ none = unfold view in rw missing in cc)
      | inr (s, here) ↦
          let placed : IsPlaced (id / 64) (some s) =
            subst (IsPlaced (id / 64)) here (v (id / 64)) in
          rw (here, address id)
            (
              write-IsValid table (id / 64) _ v
                  (set-IsPlaced (id / 64) (id % 64) s h.1 channel placed.0 placed.2 (omega arith)),
              λ j. ground (
                arith,
                view-write table (id / 64) j (some (set s (id % 64) (some channel))),
                same_address id j,
                same-view table (id / 64) j (some s) here,
                get_or-set s (id % 64) (j % 64) (some channel) none,
              ),
            )
    ]
