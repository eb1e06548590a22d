-- ===== src/Channel/Rendezvous/Tests.antt =====
-- A receiver and a sender of 5 meet.
use co_context.Prelude.{ℕ, List, [], ◌∷◌, ◌++◌, ◌≡◌}
use co_context.Channel.Rendezvous.{
  Event, acquire_called, release_called, owner, run, new_zero_channel,
}
use co_context.Channel.Rendezvous.Delivery.{under_way, delivers, GetsItem, receiver_served}

abbrev both_come : List (Event ℕ)
both_come = acquire_called ∷ owner ∷ release_called 5 ∷ owner ∷ []

delivers_example :
    (run both_come new_zero_channel).sent
    ≡ (run both_come new_zero_channel).received ++ under_way (run both_come new_zero_channel).item
delivers_example = delivers both_come

receiver_served_example : GetsItem (run both_come new_zero_channel)
unfolding run
receiver_served_example = receiver_served both_come (λ e. cc) (λ e. cc)
