-- ===== src/Roots/ThreadTests.antt =====
-- Runs of the theorems on the two threads, on a table of one server.
use dns_server_cpp.Address.Defs.{v4}
use dns_server_cpp.Common.{List, [], false, none, refl, some, true, ◌*◌, ◌+◌, ◌∷◌, ◌≡◌, ◌≤◌}
use dns_server_cpp.Net.Exchange.{failed, no_answer}
use dns_server_cpp.Packet.Defs.{empty_packet}
use dns_server_cpp.Roots.Ask.{
  Surroundings, ask_server, change_at, is_tried, mark_failed, pick, untried_candidates,
}
use dns_server_cpp.Roots.Defs.{
  RootServer, fast_limit, get_candidates, get_least_srtt, is_candidate, keep_if, least_from,
  lower_srtt, new_server, numbered, select_category,
}
use dns_server_cpp.Roots.Interleaved.{IsManager, Reach-IsManager}
use dns_server_cpp.Roots.Locked.{IsLocked, Reach-IsLocked}
use dns_server_cpp.Roots.Progress.{GoesOnWith, Reach-goes_on}
use dns_server_cpp.Roots.Stopping.{Going, Going-stops, probes, stays}
use dns_server_cpp.Roots.Threads.{
  Manager, Reach, Step, ask, asker, begin, between, call, check, choice, choosing, ended, entering,
  exchanged, later, lock_choice, lock_loop, lock_mark, mark, new_manager, probe, request_stop,
  start_probing, writing,
}

abbrev one_server : RootServer
one_server = new_server (v4 (record { octet0 = 198; octet1 = 41; octet2 = 0; octet3 = 4 }))

abbrev one_table : List RootServer
one_table = one_server ∷ []

-- The asking thread is about to choose a server, and the probing thread waits for the mutex.
abbrev contended : Manager
contended = record {
  servers = one_table;
  holder = some asker;
  asking = choosing [] 4;
  probing = entering;
  stop = false;
}

contended_reached : Reach one_table contended
contended_reached =
    later (later (later begin (probe (start_probing refl refl))) (ask empty_packet (call refl)))
      (ask empty_packet (lock_choice refl refl))

Reach-IsManager_example : IsManager (one_server.address ∷ []) contended
Reach-IsManager_example = Reach-IsManager (refl, tt) contended_reached

-- No socket opens, so the server that is chosen fails.
abbrev closed_sockets : Surroundings
closed_sockets = record {
  roll = λ _. 50;
  draw = λ _ _. 0;
  opens = λ _. false;
  meanwhile = λ _ servers. servers;
  network = λ _ _ _. no_answer;
}

one_pick : pick closed_sockets empty_packet 0 [] one_table ≡ some (0, one_server)
unfolding select_category get_least_srtt least_from lower_srtt untried_candidates get_candidates
    fast_limit is_candidate numbered keep_if is_tried
one_pick = refl

-- It is about to be marked, in the locked region for that.
abbrev failing : Manager
failing = record {
  servers = one_table;
  holder = some asker;
  asking = writing (one_server.address ∷ []) 4 0 failed;
  probing = entering;
  stop = false;
}

failing_reached : Reach one_table failing
unfolding ask_server
failing_reached =
    later
      (later (later contended_reached (ask empty_packet (choice closed_sockets refl one_pick)))
        (ask empty_packet (exchanged closed_sockets refl)))
      (ask empty_packet (lock_mark refl refl))

abbrev failing_mark : Step failing (record failing {
  servers = change_at 0 mark_failed one_table;
  holder = none;
  asking = between (one_server.address ∷ []) 4;
})
failing_mark = ask empty_packet (mark refl)

Reach-IsLocked_example : IsLocked failing_mark
Reach-IsLocked_example = Reach-IsLocked (refl, tt) failing_reached failing_mark

Reach-goes_on_example : GoesOnWith empty_packet contended (some asker)
Reach-goes_on_example = Reach-goes_on empty_packet (refl, tt) contended_reached

-- The stop was requested before the probing thread has taken the mutex.
abbrev stopped_manager : Manager
stopped_manager = record (new_manager one_table) { probing = entering; stop = true }

stopped_reached : Reach one_table stopped_manager
stopped_reached = later (later begin (probe (start_probing refl refl))) (request_stop refl)

-- It ends in two steps.
abbrev ended_manager : Manager
ended_manager = record (new_manager one_table) { probing = ended; stop = true }

stopped_ends : Going stopped_manager 2 ended_manager
stopped_ends = probes (probes stays (lock_loop refl refl)) (check refl)

Going-stops_example : (ended_manager.stop ≡ true) × (2 ≤ 5 * 1 + 3)
Going-stops_example = Going-stops (refl, tt) stopped_reached refl stopped_ends
