-- ===== src/Resolver/Task.antt =====
-- The state of a DnsResolver (include/DnsResolver.hpp) and what a lookup does to it.
use dns_server_cpp.Address.Defs.{IpAddress}
use dns_server_cpp.Buffer.State.{BytePacketBuffer}
use dns_server_cpp.Cache.Defs.{
  CacheResult, DnsCache, DnsCacheEntry, DnsCacheKey, get, put_records, put_result,
}
use dns_server_cpp.Common.{Bool, List, Option, ℕ, ◌+◌}
use dns_server_cpp.Net.Exchange.{Reply}
use dns_server_cpp.Net.Sockets.{SocketAddress}
use dns_server_cpp.Packet.Defs.{DnsPacket}
use dns_server_cpp.Record.Defs.{DnsRecord}
use dns_server_cpp.Resolver.Defs.{
  Queried, query_faulted, query_name_server, query_replied, query_threw,
}
use dns_server_cpp.Roots.Ask.{Asked, Surroundings, ask_root_server, crashed, escaped, returned}
use dns_server_cpp.Roots.Defs.{RootServer}

-- `events` numbers the readings of the clock, the random draws and the exchanges of a run.
pub record Resolver : Type 0 where
  pub cache : DnsCache
  pub servers : List RootServer
  pub events : ℕ

-- What the surroundings do, by the number of the event: the clock, the draw of an ID, a whole call of
-- the root servers' manager, and a socket with the exchange over it.
pub record World : Type 0 where
  pub clock : ℕ → ℕ
  pub query_id : ℕ → ℕ
  pub roots : ℕ → Surroundings
  pub opens : ℕ → Bool
  pub network : ℕ → SocketAddress → BytePacketBuffer → Reply

-- How a lookup ends: with a value, with an exception that leaves it, with a fault of the program, or with more recursive calls than the
-- model's fuel allows.
pub data Looked (A : Type 0) : Type 0 where
  found : A → Resolver → Looked A
  thrown : Resolver → Looked A
  fault : Looked A
  too_deep : Looked A

abbrev pub Task : Type 0 → Type 0
Task A = Resolver → Looked A

abbrev pub continue_with : {A B : Type 0} → Looked A → (A → Task B) → Looked B
continue_with (found a r) f = f a r
continue_with (thrown r) f = thrown r
continue_with fault f = fault
continue_with too_deep f = too_deep

infixl 5 ◌>>=◌ ◌>>◌
abbrev pub ◌>>=◌ : {A B : Type 0} → Task A → (A → Task B) → Task B
◌>>=◌ m f r = continue_with (m r) f

abbrev pub ◌>>◌ : {A B : Type 0} → Task A → Task B → Task B
m >> k = m >>= λ _. k

abbrev pub give : {A : Type 0} → A → Task A
give a r = found a r

-- The number of the event that comes next.
abbrev pub next_event : Task ℕ
next_event r = found r.events (record r { events = r.events + 1 })

module _ (w : World) where
  -- `cache.get`, which reads the clock.
  unfoldable pub cache_get : DnsCacheKey → Task (Option DnsCacheEntry)
  cache_get key r =
      let answer = get key (w.clock r.events) r.cache in
      found (answer.0) (record r { cache = answer.1; events = r.events + 1 })

  -- `cache.put` of records and of a negative result, which read the clock twice.
  unfoldable pub cache_records : DnsCacheKey → List DnsRecord → Task (Unit {0})
  cache_records key records r = found tt (record r {
    cache = put_records key records 60 (w.clock r.events) (w.clock (r.events + 1)) r.cache;
    events = r.events + 2;
  })

  unfoldable pub cache_result : DnsCacheKey → CacheResult → ℕ → Task (Unit {0})
  cache_result key result ttl r = found tt (record r {
    cache = put_result key result ttl (w.clock r.events) (w.clock (r.events + 1)) r.cache;
    events = r.events + 2;
  })

  abbrev pub asked_packet : Resolver → Asked → Looked DnsPacket
  asked_packet r (returned tried servers response) = found response (record r { servers = servers })
  asked_packet r (escaped tried servers) = thrown (record r { servers = servers })
  asked_packet r crashed = fault

  -- `root_server_manager.AskRootServer`.
  unfoldable pub ask_roots : DnsPacket → Task DnsPacket
  ask_roots query r =
      asked_packet (record r { events = r.events + 1 })
        (ask_root_server (w.roots r.events) query r.servers)

  abbrev pub queried_packet : Queried → Task DnsPacket
  queried_packet (query_replied p) r = found p r
  queried_packet query_threw r = thrown r
  queried_packet query_faulted r = fault

  -- `QueryNameServer`.
  unfoldable pub query_server : DnsPacket → IpAddress → Task DnsPacket
  query_server query address r =
      queried_packet (query_name_server (w.opens r.events) (w.network r.events) query address)
        (record r { events = r.events + 1 })
