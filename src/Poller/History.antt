-- ===== src/Poller/History.antt =====
-- src/net/poller/EpollPoller.cc: any calls of updateChannel and removeChannel, for any number of channels.
use network_library.Prelude.{
  ℕ, ◌≡◌, ◌≢◌, refl, sym, ap, ◌∙◌, subst, Bool, true, false, ◌&&◌, List, [], ◌∷◌, Option, none,
  some, arith, ◌==◌, if◌then◌else◌, Bool-cases, inl, inr,
}
use network_library.Prelude.Options.{◌>>=◌}
use network_library.Channel.{Channel, Mask, Index, new_channel, added, deleted, is_none_event}
use network_library.Channel
use network_library.Poller.{Poller, new, update_channel, remove_channel}
use network_library.Poller.Protocol.{
  interest, IsLegal, IsSynced, Tracks, wanted, Index-cases, update_channel_lem, remove_channel_lem,
}

-- The channels by their descriptors, which are also their addresses here.
pub record World : Type 0 where
  pub channels : ℕ → Channel
  pub poller : Poller

-- A channel that takes other events, and tells the poller, or one that is removed.
pub data Call : Type 0 where
  updates : ℕ → Mask → Call
  removes : ℕ → Call

abbrev pub put_channel : ℕ → Channel → Poller → World → World
put_channel fd c p w = record { channels = λ g. if g == fd then c else w.channels g; poller = p }

unfoldable pub step : Call → World → Option World
step (updates fd events) w =
    update_channel true fd (record (w.channels fd) { events = events }) w.poller >>= λ (c, p).
    some (put_channel fd c p w)
step (removes fd) w =
    remove_channel true (w.channels fd) w.poller >>= λ (c, p). some (put_channel fd c p w)

unfoldable pub run : List Call → World → Option World
run [] w = some w
run (call ∷ calls) w = step call w >>= run calls

-- New channels and a new poller.
abbrev pub start : World
start = record { channels = Channel.new; poller = new }

abbrev is_some : Option Mask → Bool
is_some none = false
is_some (some events) = true

-- What epoll should hold for each descriptor: the events of the last update, but nothing where the channel takes none
-- and epoll held some, nor after a removal.
unfoldable pub tell : Call → (ℕ → Option Mask) → ℕ → Option Mask
tell (updates fd events) held g =
    if g == fd
    then if is_none_event events && is_some (held fd) then none else some events
    else held g
tell (removes fd) held g = if g == fd then none else held g

unfoldable pub tell_all : List Call → (ℕ → Option Mask) → ℕ → Option Mask
tell_all [] held = held
tell_all (call ∷ calls) held = tell_all calls (tell call held)

-- The poller and its channels agree, and epoll holds this.
record IsKept (held : ℕ → Option Mask) (w : World) : Type 0 where
  legal : IsLegal w.poller.trace
  own_fd : (fd : ℕ) → (w.channels fd).fd ≡ fd
  tracks : (fd : ℕ) → Tracks (w.channels fd).index (interest w.poller.trace fd)
  holds : (fd : ℕ) → interest w.poller.trace fd ≡ held fd

synced :
    {held : ℕ → Option Mask} {w : World} (fd : ℕ) (events : Mask)
    → IsKept held w
    → IsSynced (record (w.channels fd) { events = events }) w.poller
synced {held} {w} fd events k = record { legal = k.legal; tracks = rw (k.own_fd fd) (k.tracks fd) }

-- A channel has changed, and what epoll holds for its descriptor.
put-IsKept :
    {held next : ℕ → Option Mask} {w : World} (fd : ℕ) (c : Channel) (p : Poller)
    → IsKept held w
    → IsSynced c p
    → c.fd ≡ fd
    → interest p.trace fd ≡ next fd
    → ((g : ℕ) → g ≢ fd → interest p.trace g ≡ interest w.poller.trace g)
    → ((g : ℕ) → g ≢ fd → next g ≡ held g)
    → IsKept next (put_channel fd c p w)
put-IsKept {held} {next} {w} fd c p k s own here others same = record {
  legal = s.legal;
  own_fd = λ g. elim (Bool-cases (g == fd)) [
    | inl e ↦ rw e (own ∙ sym (same_fd g e))
    | inr n ↦ rw n (k.own_fd g)
  ];
  tracks = λ g. elim (Bool-cases (g == fd)) [
    | inl e ↦
        rw e (subst (λ h. Tracks c.index (interest p.trace h)) (own ∙ sym (same_fd g e)) s.tracks)
    | inr n ↦
        rw n (subst (Tracks (w.channels g).index) (sym (others g (other_fd g n))) (k.tracks g))
  ];
  holds = λ g. elim (Bool-cases (g == fd)) [
    | inl e ↦ ap (interest p.trace) (same_fd g e) ∙ here ∙ ap next (sym (same_fd g e))
    | inr n ↦ others g (other_fd g n) ∙ k.holds g ∙ sym (same g (other_fd g n))
  ];
}
  where
    same_fd : (g : ℕ) → (g == fd) ≡ true → g ≡ fd
    same_fd g e = ground (arith, e)

    other_fd : (g : ℕ) → (g == fd) ≡ false → g ≢ fd
    other_fd g n q = absurd (ground (arith, n, q))

after_update : Mask → Option Mask → Option Mask
after_update events held = if is_none_event events && is_some held then none else some events

-- What updateChannel leaves epoll with is what it should, where the channel's index tells what epoll holds.
wanted_lem :
    (c : Channel) (held : Option Mask) → Tracks c.index held → wanted c ≡ after_update c.events held
unfolding after_update
wanted_lem c none t = elim (Index-cases c.index) [
  | inl e ↦ ground (arith, e)
  | inr (inl e) ↦ absurd (ground (arith, e, t))
  | inr (inr e) ↦ ground (arith, e)
]
wanted_lem c (some events) t = elim (Index-cases c.index) [
  | inl e ↦ absurd (ground (arith, e, t))
  | inr (inl e) ↦ ground (arith, e)
  | inr (inr e) ↦ absurd (ground (arith, e, t))
]

tell-own :
    (fd : ℕ) (events : Mask) (held : ℕ → Option Mask)
    → tell (updates fd events) held fd ≡ after_update events (held fd)
unfolding tell after_update
tell-own fd events held = ground arith

tell-gone : (fd : ℕ) (held : ℕ → Option Mask) → tell (removes fd) held fd ≡ none
unfolding tell
tell-gone fd held = ground arith

tell-other :
    (fd : ℕ) (events : Mask) (held : ℕ → Option Mask) (g : ℕ)
    → g ≢ fd
    → tell (updates fd events) held g ≡ held g
unfolding tell
tell-other fd events held g n = ground (arith, n)

tell-removed :
    (fd : ℕ) (held : ℕ → Option Mask) (g : ℕ) → g ≢ fd → tell (removes fd) held g ≡ held g
unfolding tell
tell-removed fd held g n = ground (arith, n)

step-IsKept :
    (call : Call) {held : ℕ → Option Mask} {w : World}
    → IsKept held w
    → (v : World) × (step call w ≡ some v) × IsKept (tell call held) v
unfolding step
step-IsKept (updates fd events) {held} {w} k =
    let c : Channel = record (w.channels fd) { events = events } in
    let (c', p', r, s, here, others, own) = update_channel_lem fd c w.poller (synced fd events k) in
    (
      put_channel fd c' p' w,
      rw r refl,
      put-IsKept fd c' p' k s (own ∙ k.own_fd fd)
          (ap (interest p'.trace) (sym (k.own_fd fd))
            ∙ here
            ∙ wanted_lem c (held fd) (subst (Tracks c.index) (k.holds fd) (k.tracks fd))
            ∙ sym (tell-own fd events held))
          (λ g n. others g (λ q. n (q ∙ k.own_fd fd))) (tell-other fd events held),
    )
step-IsKept (removes fd) {held} {w} k =
    let (c', p', r, s, here, others, forgot, own) =
      remove_channel_lem (w.channels fd) w.poller (synced fd (w.channels fd).events k) in
    (
      put_channel fd c' p' w,
      rw r refl,
      put-IsKept fd c' p' k s (own ∙ k.own_fd fd)
          (ap (interest p'.trace) (sym (k.own_fd fd)) ∙ here ∙ sym (tell-gone fd held))
          (λ g n. others g (λ q. n (q ∙ k.own_fd fd))) (tell-removed fd held),
    )

run-IsKept :
    (calls : List Call) {held : ℕ → Option Mask} {w : World}
    → IsKept held w
    → (v : World) × (run calls w ≡ some v) × IsKept (tell_all calls held) v
unfolding run tell_all
run-IsKept [] k = (_, refl, k)
run-IsKept (call ∷ calls) k =
    let (u, done, k') = step-IsKept call k in
    let (v, rest, k'') = run-IsKept calls k' in (v, ap (λ m. m >>= run calls) done ∙ rest, k'')

-- Whatever calls of updateChannel and removeChannel there are, for any number of channels, starting with new ones:
-- every one returns, epoll would refuse none of the calls of epoll_ctl, and epoll holds in the end for each descriptor
-- what it should: the events of the channel's last update, but nothing after a removal, or where the channel takes no
-- events and epoll held some.
pub run-tell_all :
    (calls : List Call)
    → (v : World) × (run calls start ≡ some v)
      × IsLegal v.poller.trace
      × ((fd : ℕ) → interest v.poller.trace fd ≡ tell_all calls (λ fd. none) fd)
unfolding interest new
run-tell_all calls =
    let (v, done, k) =
      run-IsKept calls {held = λ fd. none} {w = start}
        (record { legal = tt; own_fd = λ fd. refl; tracks = λ fd. refl; holds = λ fd. refl }) in
    (v, done, k.legal, k.holds)
