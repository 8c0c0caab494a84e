-- ===== src/Channel.antt =====
-- src/net/Channel.h and src/net/Channel.cc: a descriptor, the events it waits for, and the calls
-- that an event brings.
--
-- An event mask is the record of its bits; a callback is known by whether it is set, and a call of
-- it is a value. `tie_` is whether the tied owner is still alive.
pub mod Dispatch
mod Tests
use network_library.Prelude.{
  ℕ, Bool, true, false, not, ◌&&◌, ◌||◌, List, [], ◌∷◌, ◌++◌, if◌then◌else◌,
}

-- The bits of `sys/epoll.h` that the code names.
pub record Mask : Type 0 where
  pub epollin : Bool
  pub epollpri : Bool
  pub epollout : Bool
  pub epollerr : Bool
  pub epollhup : Bool

abbrev pub mask_or : Mask → Mask → Mask
mask_or a b = record {
  epollin = a.epollin || b.epollin;
  epollpri = a.epollpri || b.epollpri;
  epollout = a.epollout || b.epollout;
  epollerr = a.epollerr || b.epollerr;
  epollhup = a.epollhup || b.epollhup;
}

-- `a & ~b`
abbrev pub mask_without : Mask → Mask → Mask
mask_without a b = record {
  epollin = a.epollin && not b.epollin;
  epollpri = a.epollpri && not b.epollpri;
  epollout = a.epollout && not b.epollout;
  epollerr = a.epollerr && not b.epollerr;
  epollhup = a.epollhup && not b.epollhup;
}

-- `a & b`, as a condition
abbrev pub meets : Mask → Mask → Bool
meets a b =
    (a.epollin && b.epollin)
    || (a.epollpri && b.epollpri)
    || (a.epollout && b.epollout)
    || (a.epollerr && b.epollerr)
    || (a.epollhup && b.epollhup)

abbrev pub none_event : Mask
none_event = record {
  epollin = false;
  epollpri = false;
  epollout = false;
  epollerr = false;
  epollhup = false;
}

abbrev pub read_event : Mask
read_event = record none_event { epollin = true; epollpri = true }

abbrev pub write_event : Mask
write_event = record none_event { epollout = true }

-- `index_`: `kNew`, `kAdded` and `kDeleted` of EpollPoller.cc.
pub data Index : Type 0 where
  new_channel added deleted : Index

pub record Channel : Type 0 where
  pub fd : ℕ
  pub events : Mask
  pub revents : Mask
  pub index : Index
  pub tied : Bool
  pub owner_alive : Bool
  pub has_read : Bool
  pub has_write : Bool
  pub has_close : Bool
  pub has_error : Bool

-- The constructor.
abbrev pub new : ℕ → Channel
new fd = record {
  fd = fd;
  events = none_event;
  revents = none_event;
  index = new_channel;
  tied = false;
  owner_alive = false;
  has_read = false;
  has_write = false;
  has_close = false;
  has_error = false;
}

abbrev pub tie : Channel → Channel
tie c = record c { tied = true; owner_alive = true }

pub set_revents : Mask → Channel → Channel
set_revents revt c = record c { revents = revt }

-- The five that change `events_`; each then calls `update`, which is EventLoop's business.
abbrev pub enable_reading : Channel → Channel
enable_reading c = record c { events = mask_or c.events read_event }

abbrev pub disable_reading : Channel → Channel
disable_reading c = record c { events = mask_without c.events read_event }

abbrev pub enable_writing : Channel → Channel
enable_writing c = record c { events = mask_or c.events write_event }

abbrev pub disable_writing : Channel → Channel
disable_writing c = record c { events = mask_without c.events write_event }

abbrev pub disable_all : Channel → Channel
disable_all c = record c { events = none_event }

abbrev pub is_none_event : Mask → Bool
is_none_event m =
    not m.epollin && not m.epollpri && not m.epollout && not m.epollerr && not m.epollhup

-- `isNonEvents`
abbrev pub is_non_events : Channel → Bool
is_non_events c = is_none_event c.events

abbrev pub is_writing : Channel → Bool
is_writing c = meets c.events write_event

abbrev pub is_reading : Channel → Bool
is_reading c = meets c.events read_event

-- A call of one of the four callbacks; the read callback is told the time.
pub data Call : Type 0 where
  close_call error_call write_call : Call
  read_call : ℕ → Call

-- `if (test) { if (callback_) callback_(); }`
when_set : Bool → Bool → Call → List Call
when_set test is_set call = if test then (if is_set then call ∷ [] else []) else []

-- `handleEventWithGuard`
pub handle_event_with_guard : ℕ → Channel → List Call
unfolding when_set
handle_event_with_guard time c =
    when_set (c.revents.epollhup && not c.revents.epollin) c.has_close close_call
    ++ (when_set c.revents.epollerr c.has_error error_call
        ++ (when_set (c.revents.epollin || c.revents.epollpri) c.has_read (read_call time)
            ++ when_set c.revents.epollout c.has_write write_call))

-- `handleEvemt`
pub handle_event : ℕ → Channel → List Call
handle_event time c =
    if c.tied
    then (if c.owner_alive then handle_event_with_guard time c else [])
    else handle_event_with_guard time c
