-- ===== src/Roots/Tests.antt =====
-- Runs of the theorems on a table of two root servers.
use dns_server_cpp.Address.Defs.{v4}
use dns_server_cpp.Common.{List, [], arith, false, is_empty, map, refl, some, true, ◌∷◌, ◌≡◌}
use dns_server_cpp.Net.Exchange.{no_answer}
use dns_server_cpp.Packet.Defs.{empty_packet}
use dns_server_cpp.Roots.Ask.{Surroundings, ask_root_server}
use dns_server_cpp.Roots.Asked.{IsAsked, ask_root_server-IsAsked}
use dns_server_cpp.Roots.Bands.{get_candidates-fast}
use dns_server_cpp.Roots.Defs.{RootServer, fail, fast_band, get_candidates, get_least_srtt, success}
use dns_server_cpp.Roots.Meanwhile.{with_probes, with_probes-KeepsAddresses}
use dns_server_cpp.Roots.Probe.{ProbeSurroundings, probe_failed_servers}
use dns_server_cpp.Roots.Probed.{AllRenewed, IsProbing, probe_failed_servers-AllRenewed}

abbrev server_a : RootServer
server_a = record {
  address = v4 (record { octet0 = 198; octet1 = 41; octet2 = 0; octet3 = 4 });
  status = success;
  consecutive_failures = 0;
  srtt_ms = 40;
}

abbrev server_b : RootServer
server_b = record {
  address = v4 (record { octet0 = 170; octet1 = 247; octet2 = 170; octet3 = 2 });
  status = fail;
  consecutive_failures = 1;
  srtt_ms = 0;
}

abbrev two_servers : List RootServer
two_servers = server_a ∷ server_b ∷ []

-- A network without answers.
abbrev silence : Surroundings
silence = record {
  roll = λ _. 50;
  draw = λ _ _. 0;
  opens = λ _. true;
  meanwhile = λ _ servers. servers;
  network = λ _ _ _. no_answer;
}

abbrev probe_silence : ProbeSurroundings
probe_silence = record { id = λ i. 7; opens = λ _. true; network = λ _ _ _. no_answer }

probe_silence-IsProbing : IsProbing probe_silence
probe_silence-IsProbing = record { small = λ i. omega arith; fits = λ i server b. tt }

-- A round of probes before and behind each choice.
abbrev probed_silence : Surroundings
probed_silence = with_probes (λ attempt. probe_silence ∷ []) silence

ask_root_server-IsAsked_example :
    IsAsked probed_silence empty_packet
      (map (λ s. s.address) two_servers)
      (ask_root_server probed_silence empty_packet two_servers)
ask_root_server-IsAsked_example = ask_root_server-IsAsked probed_silence empty_packet two_servers (
    with_probes-KeepsAddresses (λ attempt. probe_silence ∷ []) silence empty_packet
      (λ attempt. (probe_silence-IsProbing, tt)))

probe_failed_servers-AllRenewed_example :
    (servers' : List RootServer) × (probe_failed_servers probe_silence two_servers ≡ some servers')
    × AllRenewed two_servers servers'
probe_failed_servers-AllRenewed_example =
    probe_failed_servers-AllRenewed probe_silence probe_silence-IsProbing two_servers

get_candidates-fast_example :
    is_empty (get_candidates fast_band (get_least_srtt two_servers) two_servers) ≡ false
get_candidates-fast_example = get_candidates-fast two_servers refl (omega arith)
