-- ===== src/Poller/Tests.antt =====
-- Runs of the poller, and its theorems at concrete channels.
use network_library.Prelude.{ℕ, ◌≡◌, refl, List, true, [], ◌∷◌, none, some}
use network_library.Prelude.Maps.{assign, no_entries}
use network_library.Poller.History
use network_library.Poller.History.{World, Call, updates, removes, tell_all, run-tell_all}
use network_library.Channel.{
  read_event, write_event, none_event, Channel, Index, new_channel, added, enable_reading,
  disable_all,
}
use network_library.Channel
use network_library.Poller.{Poller, new, add, update_channel, remove_channel}
use network_library.Poller.Protocol.{
  interest, IsLegal, IsSynced, Ends, update_channel_lem, Forgets, remove_channel_lem,
}

abbrev reading : Channel
reading = enable_reading (Channel.new 5)

-- The poller after `reading` was added.
abbrev one_channel : Poller
one_channel = record {
  channels = assign 5 77 no_entries;
  trace = record { op = add; fd = 5; events = reading.events } ∷ [];
  event_list_size = 16;
}

abbrev registered : Channel
registered = record reading { index = added }

update_adds : update_channel true 77 reading new ≡ some (registered, one_channel)
unfolding update_channel new
update_adds = refl

reading-IsSynced : IsSynced reading new
unfolding interest new
reading-IsSynced = record { legal = tt; tracks = refl }

registered-IsSynced : IsSynced registered one_channel
unfolding interest
registered-IsSynced = record { legal = (refl, tt); tracks = λ h. cc }

-- The same channel, with nothing to wait for any more.
abbrev idle : Channel
idle = disable_all registered

idle-IsSynced : IsSynced idle one_channel
unfolding interest
idle-IsSynced = record { legal = (refl, tt); tracks = λ h. cc }

update_channel_lem_example : Ends (update_channel true 77 idle one_channel) idle one_channel none
update_channel_lem_example = update_channel_lem 77 idle one_channel idle-IsSynced

remove_channel_lem_example :
    Forgets (remove_channel true registered one_channel) registered one_channel
remove_channel_lem_example = remove_channel_lem registered one_channel registered-IsSynced

abbrev calls : List Call
calls =
    updates 5 read_event
    ∷ updates 6 write_event
    ∷ updates 5 none_event
    ∷ updates 7 read_event
    ∷ removes 6
    ∷ []

run-tell_all_example :
    (v : World) × (History.run calls History.start ≡ some v)
    × IsLegal v.poller.trace
    × ((fd : ℕ) → interest v.poller.trace fd ≡ tell_all calls (λ fd. none) fd)
run-tell_all_example = run-tell_all calls
