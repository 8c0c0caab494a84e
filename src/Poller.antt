-- ===== src/Poller.antt =====
-- src/net/poller/Poller.h, Poller.cc, EpollPoller.h and EpollPoller.cc: the map of channels, and
-- what is told to epoll.
--
-- A `Channel*` is a number. The calls of `epoll_ctl` are kept as a trace, newest first; whether one
-- succeeded is the kernel's answer, an argument. `none` is the `exit` of `LOG_FAT`.
pub mod Protocol
pub mod History
mod Tests
use network_library.Prelude.{
  ℕ, ◌*◌, ◌≡◌, Bool, true, false, List, [], ◌∷◌, ◌++◌, Option, none, some, length, ◌==◌,
  if◌then◌else◌, map,
}
use network_library.Prelude.Maps.{no_entries, assign, erase}
use network_library.Prelude.Options.{◌>>=◌}
use network_library.Channel.{Channel, Mask, Index, new_channel, added, deleted, is_non_events}

pub data CtlOp : Type 0 where
  add mod_events del : CtlOp

pub record Ctl : Type 0 where
  pub op : CtlOp
  pub fd : ℕ
  pub events : Mask

pub record Poller : Type 0 where
  pub channels : ℕ → Option ℕ
  pub trace : List Ctl
  pub event_list_size : ℕ

-- `kInitEventListSize`
abbrev pub init_event_list_size : ℕ
init_event_list_size = 16

unfoldable pub new : Poller
new = record { channels = no_entries; trace = []; event_list_size = init_event_list_size }

-- `update`: a failed `EPOLL_CTL_DEL` is logged, any other failure ends the process.
pub update : Bool → CtlOp → Channel → Poller → Option Poller
update succeeds op c p = if succeeds then some told else elim op [ del ↦ some told | _ ↦ none ]
  where
    told : Poller
    told = record p { trace = record { op = op; fd = c.fd; events = c.events } ∷ p.trace }

-- `updateChannel`. `channel` is the address of `c`; a channel known to epoll is changed or taken out,
-- any other is added, and the new ones are put in the map too.
pub update_channel : Bool → ℕ → Channel → Poller → Option (Channel × Poller)
unfolding update
update_channel succeeds channel c p = elim c.index [
  | new_channel ↦
      let c' = record c { index = added } in
      (update succeeds add c' (record p { channels = assign c.fd channel p.channels }) >>= λ p'.
      some (c', p'))
  | deleted ↦
      let c' = record c { index = added } in (update succeeds add c' p >>= λ p'. some (c', p'))
  | added ↦
      if is_non_events c
      then (update succeeds del c p >>= λ p'. some (record c { index = deleted }, p'))
      else (update succeeds mod_events c p >>= λ p'. some (c, p'))
]

-- `removeChannel`
pub remove_channel : Bool → Channel → Poller → Option (Channel × Poller)
unfolding update
remove_channel succeeds c p =
    let erased = record p { channels = erase c.fd p.channels } in
    let c' = record c { index = new_channel } in
    elim c.index [
      | added ↦ (update succeeds del c erased >>= λ p'. some (c', p'))
      | _ ↦ some (c', erased)
    ]

-- `hasChannel`
pub has_channel : ℕ → Channel → Poller → Bool
has_channel channel c p = elim (p.channels c.fd) [ none ↦ false | some found ↦ found == channel ]

-- What `epoll_wait` returns: the events, each with the pointer it was registered with, or an errno.
pub data Waited : Type 0 where
  events : List (ℕ × Mask) → Waited
  failed : ℕ → Waited

-- `fillActiveChannels`: which channels become active, with their `revents_`.
pub fill_active_channels : List (ℕ × Mask) → List (ℕ × Mask) → List (ℕ × Mask)
fill_active_channels evs active = active ++ evs

-- `poll`: the active channels that it appends, and the event list, twice as long once it was full.
pub poll : Waited → Poller → List (ℕ × Mask) × Poller
unfolding fill_active_channels
poll (events []) p = ([], p)
poll (events (e ∷ es)) p = (
  fill_active_channels (e ∷ es) [],
  if length (e ∷ es) == p.event_list_size
      then record p { event_list_size = p.event_list_size * 2 }
      else p,
)
poll (failed errno) p = ([], p)
