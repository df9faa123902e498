-- ===== src/Hub/Tests.antt =====
-- A run of a queue of depth 2 that has to give up its oldest entry.
use tssniff.Prelude.{◌≡◌, refl, List, [], ◌∷◌}
use tssniff.Hub.{
  new_channel, try_send, send, go_on, receive, Action, sends, goes_on, receives, act, act_all,
}

abbrev actions : List Action
actions = sends (1 ∷ []) ∷ sends (2 ∷ []) ∷ sends (3 ∷ []) ∷ goes_on ∷ goes_on ∷ receives ∷ []

oldest_lost : (act_all 2 actions new_channel).received ≡ (2 ∷ []) ∷ []
unfolding act_all act send go_on receive try_send new_channel
oldest_lost = refl
