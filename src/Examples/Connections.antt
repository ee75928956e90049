-- ===== src/Examples/Connections.antt =====
-- Runs of the connections of src/server.c, and the sweep at a concrete input.
use vecdb.Prelude.{◌≡◌, refl, arith, List, [], ◌∷◌, ◌++◌, Option, none, some, true}
use vecdb.Server.Connection.{is_idle}
use vecdb.Server.Connections.{Tracked, Tracker, accepted, accept_round, sweep}
use vecdb.Server.Connections.Sweep.{Swept, fds_of, blocks_of, sweep_takes_idle}

-- One connection that has been silent since 100, and one that was accepted at 900.
abbrev tracker : Tracker
tracker = record {
  active_connections = none ∷ some (accepted 1 1 100) ∷ none ∷ none ∷ [];
  closed = [];
  freed = [];
}

abbrev two_connections : Tracker
two_connections = record {
  active_connections = none ∷ some (accepted 1 1 100) ∷ some (accepted 2 2 900) ∷ none ∷ [];
  closed = [];
  freed = [];
}

accept_round-run : accept_round (some 2) (some 2) true 900 tracker ≡ two_connections
unfolding accept_round
accept_round-run = refl

sweep-run : sweep 1000 two_connections ≡ record {
  active_connections = none ∷ none ∷ some (accepted 2 2 900) ∷ none ∷ [];
  closed = 1 ∷ [];
  freed = 1 ∷ [];
}
unfolding sweep is_idle
sweep-run = refl

sweep_takes_idle_example :
    (after : List (Option Tracked)) × (cs : List Tracked) × Swept 1000
      two_connections.active_connections after cs
    × (sweep 1000 two_connections ≡ record {
      active_connections = after;
      closed = [] ++ fds_of cs;
      freed = [] ++ blocks_of cs;
    })
sweep_takes_idle_example =
    sweep_takes_idle 1000 two_connections (omega arith) (tt, (omega arith, (omega arith, (tt, tt))))
