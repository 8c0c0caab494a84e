-- ===== src/Channel/Tests.antt =====
-- Runs of the event dispatch, and its theorems at concrete channels.
use network_library.Prelude.{◌≡◌, ◌↔◌, refl, true, false, [], ◌∷◌}
use network_library.Channel.{
  Channel, none_event, new, tie, close_call, error_call, read_call, write_call, handle_event,
  handle_event_with_guard,
}
use network_library.Channel.Dispatch.{
  Makes, Guarded, Due, handle_event-Makes, Ascends, handle_event-Ascends,
}

-- A channel with all four callbacks, tied to an owner that lives.
abbrev armed : Channel
armed =
    tie (record (new 5) { has_read = true; has_write = true; has_close = true; has_error = true })

abbrev hung_up : Channel
hung_up = record armed {
  revents = record none_event { epollhup = true; epollerr = true; epollout = true };
}

hung_up_calls : handle_event 9 hung_up ≡ close_call ∷ error_call ∷ write_call ∷ []
unfolding handle_event handle_event_with_guard
hung_up_calls = refl

dead_owner_calls : handle_event 9 (record hung_up { owner_alive = false }) ≡ []
unfolding handle_event
dead_owner_calls = refl

handle_event-Makes_example :
    Makes (read_call 9) (handle_event 9 hung_up) ↔ (Guarded hung_up × Due 9 hung_up (read_call 9))
handle_event-Makes_example = handle_event-Makes 9 hung_up (read_call 9)

handle_event-Ascends_example : Ascends (handle_event 9 hung_up)
handle_event-Ascends_example = handle_event-Ascends 9 hung_up
