-- ===== src/Roots/Consistent.antt =====
-- What every change of the table of root servers keeps: the addresses, and counters that go with the
-- status.
use dns_server_cpp.Common.{All, List, [], map, refl, suc, zero, ℕ, ◌∷◌, ◌≡◌}
use dns_server_cpp.Net.Exchange.{Verdict, answered, failed, faulted, no_verdict, threw}
use dns_server_cpp.Roots.Ask.{change_at, mark_answered, mark_failed}
use dns_server_cpp.Roots.Asked.{change_at-addresses, mark_answered-address}
use dns_server_cpp.Roots.Defs.{RootServer, fail, success, unknown}
use dns_server_cpp.Roots.Threads.{written}

-- A server of which nothing is known, or that answered last, has no failures behind it.
abbrev pub IsConsistent : RootServer → Type 0
IsConsistent s = elim s.status [
  | unknown ↦ (s.consecutive_failures ≡ 0) × (s.srtt_ms ≡ 0)
  | success ↦ s.consecutive_failures ≡ 0
  | fail ↦ Unit {0}
]

pub change_at-IsConsistent :
    (i : ℕ) (f : RootServer → RootServer) (servers : List RootServer)
    → ((s : RootServer) → IsConsistent (f s))
    → All IsConsistent servers
    → All IsConsistent (change_at i f servers)
unfolding change_at
change_at-IsConsistent i f [] k h = tt
change_at-IsConsistent zero f (s ∷ servers) k h = (k s, h.1)
change_at-IsConsistent (suc i) f (s ∷ servers) k h = (h.0, change_at-IsConsistent i f servers k h.1)

pub mark_failed-IsConsistent : (s : RootServer) → IsConsistent (mark_failed s)
unfolding mark_failed
mark_failed-IsConsistent s = tt

pub mark_answered-IsConsistent : (rtt : ℕ) (s : RootServer) → IsConsistent (mark_answered rtt s)
unfolding mark_answered
mark_answered-IsConsistent rtt s = refl

pub written-IsConsistent :
    (v : Verdict) (i : ℕ) (servers : List RootServer)
    → All IsConsistent servers
    → All IsConsistent (written v i servers)
written-IsConsistent no_verdict i servers h = h
written-IsConsistent failed i servers h =
    change_at-IsConsistent i mark_failed servers mark_failed-IsConsistent h
written-IsConsistent (answered p rtt) i servers h =
    change_at-IsConsistent i (mark_answered rtt) servers (mark_answered-IsConsistent rtt) h
written-IsConsistent threw i servers h = h
written-IsConsistent faulted i servers h = h

pub written-addresses :
    (v : Verdict) (i : ℕ) (servers : List RootServer)
    → map (λ s. s.address) (written v i servers) ≡ map (λ s. s.address) servers
written-addresses no_verdict i servers = refl
written-addresses failed i servers =
    change_at-addresses i mark_failed servers (λ s. unfold mark_failed in refl)
written-addresses (answered p rtt) i servers =
    change_at-addresses i (mark_answered rtt) servers (mark_answered-address rtt)
written-addresses threw i servers = refl
written-addresses faulted i servers = refl
