-- ===== src/Bus.antt =====
-- internal/api/bus.go: LeaderboardBus, the fan-out to the subscribers of the leaderboard stream. A
-- subscriber's channel is the list of the events that it holds, oldest first. Each method runs under
-- the bus's mutex, so it is one step; the new UUID of a subscriber is an argument. The wire event has
-- the fields of the contest's event one by one, so one type stands for both.
pub mod Delivery
use nexus_bench.Base.{
  ℕ, String, Option, none, some, List, [], ◌∷◌, ◌++◌, ltb, length, if◌then◌else◌,
}
use nexus_bench.Base.Dict
use nexus_bench.Base.Dict.{Dict}

-- the depth of a subscriber's channel
abbrev pub subscriber_chan_size : ℕ
subscriber_chan_size = 4

-- the channels by subscriber
abbrev pub LeaderboardBus : Type 0 → Type 0
LeaderboardBus A = Dict (List A)

module _ {A : Type 0} where
  unfoldable pub new_leaderboard_bus : LeaderboardBus A
  new_leaderboard_bus = []

  -- the `select` with a default: a full channel drops the event
  abbrev pub deliver : A → List A → List A
  deliver event ch = if ltb (length ch) subscriber_chan_size then ch ++ event ∷ [] else ch

  unfoldable pub broadcast : A → LeaderboardBus A → LeaderboardBus A
  broadcast event [] = []
  broadcast event ((id, ch) ∷ subs) = (id, deliver event ch) ∷ broadcast event subs

  unfoldable pub do_subscribe : String → LeaderboardBus A → LeaderboardBus A
  do_subscribe id subs = Dict.put id [] subs

  -- the key is dropped and the channel closed; without the key nothing happens
  unfoldable pub do_unsubscribe : String → LeaderboardBus A → LeaderboardBus A
  do_unsubscribe id subs = elim (Dict.get id subs) [ none ↦ subs | some ch ↦ Dict.remove id subs ]

  unfoldable pub subscriber_count : LeaderboardBus A → ℕ
  subscriber_count subs = length subs
