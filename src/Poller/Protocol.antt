-- ===== src/Poller/Protocol.antt =====
-- The calls of `epoll_ctl` follow its protocol: a descriptor is added when epoll does not have it,
-- and changed or removed when it does.
use network_library.Prelude.{
  ℕ, ◌≡◌, ◌≢◌, ◌⊎◌, inl, inr, refl, ap, Bool-cases, true, false, List, [], ◌∷◌, Option, none, some,
  arith, ◌==◌, if◌then◌else◌,
}
use network_library.Prelude.Maps.{assign, erase}
use network_library.Channel.{Channel, Mask, Index, new_channel, added, deleted, is_non_events}
use network_library.Poller.{
  CtlOp, add, mod_events, del, Ctl, Poller, update_channel, remove_channel, has_channel,
}

-- What epoll holds for a descriptor after the calls: the last one about it decides.
unfoldable pub interest : List Ctl → ℕ → Option Mask
interest [] fd = none
interest (ctl ∷ before) fd =
    if ctl.fd == fd then (elim ctl.op [ del ↦ none | _ ↦ some ctl.events ]) else interest before fd

abbrev Allowed : CtlOp → Option Mask → Type 0
Allowed add held = held ≡ none
Allowed mod_events held = held ≢ none
Allowed del held = held ≢ none

-- No call would be refused with EEXIST or ENOENT.
abbrev pub IsLegal : List Ctl → Type 0
IsLegal [] = Unit
IsLegal (ctl ∷ before) = Allowed ctl.op (interest before ctl.fd) × IsLegal before

-- `index_` says whether epoll has the channel's descriptor.
abbrev pub Tracks : Index → Option Mask → Type 0
Tracks added held = held ≢ none
Tracks new_channel held = held ≡ none
Tracks deleted held = held ≡ none

pub record IsSynced (c : Channel) (p : Poller) : Type 0 where
  pub legal : IsLegal p.trace
  pub tracks : Tracks c.index (interest p.trace c.fd)

-- What `update_channel` leaves epoll with.
abbrev pub wanted : Channel → Option Mask
wanted c = elim c.index [
  | added ↦ (if is_non_events c then none else some c.events)
  | _ ↦ some c.events
]

pub Index-cases : (i : Index) → (i ≡ new_channel) ⊎ (i ≡ added) ⊎ (i ≡ deleted)
Index-cases new_channel = inl refl
Index-cases added = inr (inl refl)
Index-cases deleted = inr (inr refl)

-- A call about `fd` leaves what epoll holds for the others.
interest_ne :
    (ctl : Ctl) (before : List Ctl) (fd : ℕ)
    → fd ≢ ctl.fd
    → interest (ctl ∷ before) fd ≡ interest before fd
unfolding interest
interest_ne ctl before fd h = ground arith

-- What an update or a removal ends with: the channel and epoll agree again, epoll holds `held` for
-- the channel's descriptor, and what it held for any other; the channel keeps its descriptor.
abbrev pub Ends : Option (Channel × Poller) → Channel → Poller → Option Mask → Type 0
Ends r c p held =
    (c' : Channel) × (p' : Poller) × (r ≡ some (c', p'))
    × IsSynced c' p'
    × (interest p'.trace c.fd ≡ held)
    × ((fd : ℕ) → fd ≢ c.fd → interest p'.trace fd ≡ interest p.trace fd)
    × (c'.fd ≡ c.fd)

-- `updateChannel` makes no call that epoll would refuse, and afterwards epoll holds the events that
-- the channel wants, or nothing if it was added and wants nothing any more; the other descriptors
-- keep what they had. The hypothesis: the channel's `index_` tells what epoll holds.
pub update_channel_lem :
    (channel : ℕ) (c : Channel) (p : Poller)
    → IsSynced c p
    → Ends (update_channel true channel c p) c p (wanted c)
unfolding update_channel interest
update_channel_lem channel c p s = elim (Index-cases c.index) [
  | inl e ↦ (
    record c { index = added },
    record p {
      channels = assign c.fd channel p.channels;
      trace = record { op = add; fd = c.fd; events = c.events } ∷ p.trace;
    },
    rw (e, update_channel),
    ground arith,
    ground arith,
    interest_ne (record { op = add; fd = c.fd; events = c.events }) p.trace,
    refl,
  )
  | inr (inl e) ↦ elim (Bool-cases (is_non_events c)) [
    | inl idle ↦ (
      record c { index = deleted },
      record p { trace = record { op = del; fd = c.fd; events = c.events } ∷ p.trace },
      ground arith,
      ground arith,
      ground arith,
      interest_ne (record { op = del; fd = c.fd; events = c.events }) p.trace,
      refl,
    )
    | inr busy ↦ (
      c,
      record p { trace = record { op = mod_events; fd = c.fd; events = c.events } ∷ p.trace },
      ground arith,
      ground arith,
      ground arith,
      interest_ne (record { op = mod_events; fd = c.fd; events = c.events }) p.trace,
      refl,
    )
  ]
  | inr (inr e) ↦ (
    record c { index = added },
    record p { trace = record { op = add; fd = c.fd; events = c.events } ∷ p.trace },
    ground arith,
    ground arith,
    ground arith,
    interest_ne (record { op = add; fd = c.fd; events = c.events }) p.trace,
    refl,
  )
]

has_channel-erase :
    (channel : ℕ) (c : Channel) (p p' : Poller)
    → p'.channels ≡ erase c.fd p.channels
    → has_channel channel c p' ≡ false
unfolding has_channel
has_channel-erase channel c p p' e = ground (arith, ap (λ (m : ℕ → Option ℕ). m c.fd) e)

-- What a removal ends with: besides what an update does, no channel is in the map under the
-- descriptor.
abbrev pub Forgets : Option (Channel × Poller) → Channel → Poller → Type 0
Forgets r c p =
    (c' : Channel) × (p' : Poller) × (r ≡ some (c', p'))
    × IsSynced c' p'
    × (interest p'.trace c.fd ≡ none)
    × ((fd : ℕ) → fd ≢ c.fd → interest p'.trace fd ≡ interest p.trace fd)
    × ((channel : ℕ) → has_channel channel c p' ≡ false)
    × (c'.fd ≡ c.fd)

-- A channel that epoll does not hold is only taken out of the map.
erased-Forgets :
    (c : Channel) (p : Poller)
    → IsLegal p.trace
    → interest p.trace c.fd ≡ none
    → remove_channel true c p
      ≡ some (record c { index = new_channel }, record p { channels = erase c.fd p.channels })
    → Forgets (remove_channel true c p) c p
erased-Forgets c p l h e = (
  record c { index = new_channel },
  record p { channels = erase c.fd p.channels },
  e,
  record { legal = l; tracks = h },
  h,
  λ fd _. refl,
  λ channel. has_channel-erase channel c p (record p { channels = erase c.fd p.channels }) refl,
  refl,
)

-- `removeChannel` makes no call that epoll would refuse, and afterwards neither epoll nor the map
-- knows the channel; the other descriptors keep what they had. The hypothesis: the channel's
-- `index_` tells what epoll holds.
pub remove_channel_lem :
    (c : Channel) (p : Poller) → IsSynced c p → Forgets (remove_channel true c p) c p
unfolding remove_channel interest
remove_channel_lem c p s = elim (Index-cases c.index) [
  | inl e ↦ erased-Forgets c p s.legal (ground arith) (ground arith)
  | inr (inl e) ↦
      let del_ctl : Ctl = record { op = del; fd = c.fd; events = c.events } in
      let p' : Poller = record p { channels = erase c.fd p.channels; trace = del_ctl ∷ p.trace } in
      (
        record c { index = new_channel },
        p',
        ground arith,
        ground arith,
        ground arith,
        interest_ne del_ctl p.trace,
        λ channel. has_channel-erase channel c p p' refl,
        refl,
      )
  | inr (inr e) ↦ erased-Forgets c p s.legal (ground arith) (ground arith)
]
