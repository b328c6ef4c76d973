-- ===== src/Server/StartTests.antt =====
-- Runs of the theorems on the server's sockets and its loop.
use dns_server_cpp.Address.Defs.{any_ipv4}
use dns_server_cpp.Address.Text.{InetPton, ipv4_of_text}
use dns_server_cpp.Buffer.State.{invalid_argument, runtime_error}
use dns_server_cpp.Common.{
  List, [], arith, negsuc, none, pos, refl, some, true, ℕ, ◌+◌, ◌==◌, ◌∷◌, ◌≡◌,
}
use dns_server_cpp.Config.Csv.{comma, newline, read_row}
use dns_server_cpp.Config.Load.{add_row, add_rows, load_servers}
use dns_server_cpp.Net.Endpoints.{any_endpoint, any_ipv6, family_of}
use dns_server_cpp.Net.Sockets.{af_inet, af_inet6, from_ip}
use dns_server_cpp.Resolver.Loops.{alias_world}
use dns_server_cpp.Server.Descriptors.{IsConstructed, construct-IsConstructed}
use dns_server_cpp.Server.Loop.{Poll, datagram, nothing, poll_timeout, ready, run_main}
use dns_server_cpp.Server.Sockets.{
  Kernel, bind_socket, close_socket, construct, limit_socket, make_listening_socket, open_server,
  open_socket, open_sockets, raised,
}
use dns_server_cpp.Server.Start.{IsRun, run_main-IsRun}

-- A kernel on which the second `bind` fails.
abbrev busy_kernel : Kernel
busy_kernel = record {
  opened = λ family. some (family + 1);
  limited = λ fd. true;
  bound = λ fd address. fd == 3;
}

abbrev no_reader : InetPton
no_reader = record { parse4 = λ text. some any_ipv4; parse6 = λ text. none }

-- A kernel on which every call succeeds.
abbrev free_kernel : Kernel
free_kernel = record {
  opened = λ family. some (family + 1);
  limited = λ fd. true;
  bound = λ fd address. true;
}

-- A heading, and one row with an IPv4 address.
abbrev small_file : List ℕ
small_file = b'n' ∷ newline ∷ b'a' ∷ comma ∷ b'1' ∷ []

construct-IsConstructed_example :
    IsConstructed (construct no_reader (some small_file) busy_kernel (pos 2053))
construct-IsConstructed_example =
    construct-IsConstructed busy_kernel no_reader (some small_file) (pos 2053)

-- What was opened is closed again.
busy_kernel_closes :
    open_sockets busy_kernel 2053
    ≡ raised
        (open_socket 2 3
          ∷ bind_socket 3 (record { storage = af_inet 2053 any_ipv4; address_length = 16 })
          ∷ open_socket 10 11
          ∷ limit_socket 11
          ∷ bind_socket 11 (record { storage = af_inet6 2053 0 any_ipv6; address_length = 28 })
          ∷ close_socket 11
          ∷ close_socket 3
          ∷ [])
        runtime_error
unfolding open_sockets make_listening_socket any_endpoint family_of from_ip
busy_kernel_closes = refl

negative_port :
    construct no_reader (some small_file) busy_kernel (negsuc 0) ≡ raised [] invalid_argument
unfolding construct load_servers read_row add_rows add_row ipv4_of_text open_server
negative_port = refl

abbrev short_polls : List Poll
short_polls =
    poll_timeout ∷ ready nothing (datagram (af_inet6 5353 0 any_ipv6) 28 (1 ∷ 2 ∷ [])) ∷ []

run_main-IsRun_example :
    IsRun alias_world 3
      (λ n q attempt servers. refl)
      short_polls
      (run_main no_reader (some small_file) free_kernel alias_world 3 short_polls)
run_main-IsRun_example =
    run_main-IsRun alias_world 3 (λ n q attempt servers. refl) no_reader (some small_file)
      free_kernel short_polls (omega arith)
