-- ===== src/Lib.antt =====
-- A model of dns-server-cpp, a recursive DNS resolver and server in C++, and what is proved of it.
--
-- The parts and how they interact
--   A datagram stands in a BytePacketBuffer; DnsPacket::read makes of it a packet of a header, a
--   question and three sections of records, and DnsPacket::write goes the other way. DnsServer reads
--   a query, has DnsResolver look it up and writes the response. The resolver answers from DnsCache, or
--   asks a root server through RootServerManager, which keeps a table of servers with their round-trip
--   times, and follows the referrals and aliases that it gets.
--
-- The files
--   Common       shared names, lists and lengths by native numbers, bits of words.
--   Buffer       src/BytePacketBuffer.cxx. State: the array, position, length and capacity, and the
--                outcomes of methods. Access: the methods on bytes and words. Names: read_qname and
--                write_qname. The children after these are proofs: Safe (memory safety), NameBounds
--                (read_qname), Wire and NameWire (what is written), Reading and NameReading (what is
--                read), Owners (names of records), Contents (what was written is read).
--   Header       src/DnsHeader.cxx and include/result_code.hpp.
--   Address      src/IPv4Address.cxx, src/IPv6Address.cxx and include/IPAddress.hpp: Defs, Words, Text
--                (the text forms, with TextForm on what they tell).
--   Question     src/DnsQuestion.cxx.
--   Record       src/DnsRecord.cxx: Defs (data), Read, Write, and proofs.
--   Packet       src/DnsPacket.cxx: Defs, and proofs of the round trip, of safety and of EDNS.
--   Cache        src/DnsCache.cxx: Defs; Entries and Keys are the table as a map, Machine the map with
--                expiry that the cache implements, Runs, Orders (whatever the order of the table) and
--                Lifetimes the proofs.
--   Net          src/SocketAddress.cxx (Sockets: what the storage holds, Endpoints: with the length)
--                and the exchange with one server that src/RootServerManager.cxx and
--                src/DnsResolver.cxx share; Received is the proof that what was sent is read,
--                Replies and Oversized are on what an exchange comes to.
--   Roots        src/RootServerManager.cxx: Defs (times and bands), Ask (AskRootServer), Probe
--                (ProbeFailedServers), Threads (both threads and the mutex, a step at a time), and
--                proofs: Mutex, Consistent, Interleaved and Locked on what every interleaving keeps,
--                Nearer, Progress and Stopping on deadlock and the end of the probing thread,
--                Meanwhile on rounds of probes beside a call of AskRootServer.
--   Config       include/CSVReader.hpp (Csv, with Pieces on what it reads) and the constructor of
--                RootServerManager (Load, with proofs in Loaded and Entries).
--   Resolver     src/DnsResolver.cxx: Defs (the helpers), Task (state and steps), Lookup (the loops and
--                the lookup), and proofs: Answered and Replies on every lookup, Cached on one
--                that the cache answers, Referrals and Resolved on one that is led to an answer, Denied
--                on one that is led to a negative answer, Hops and Chains on chains of aliases, Loops on
--                an alias that names itself, Candidates, Negative and Names on parts.
--   Server       src/DnsServer.cxx: Defs (what becomes of one datagram), Sockets (constructor and
--                destructor, with Accounts and Descriptors on what they open and close), Loop (the
--                rounds of poll and src/main.cxx, with Start on what a run keeps), and proofs: Answers
--                on the whole way from the bytes of a query to those of the answer, Response and
--                Serving on parts.
--   A Tests module holds runs and examples.
--
-- How the code is modelled
--   A method is a function from the buffer to an outcome: a result with the buffer behind it, an
--   exception with the buffer as it was left, an access outside the array, or a loop that used up its
--   fuel. The last two are what safety excludes. The array is a function from indices; a load or a
--   store outside 0..1231 is the outcome for it.
--   Strings and vectors are lists, of bytes for strings. Integers are natural numbers with the code's
--   wrap-around written out.
--   read_qname runs on fuel, the length of the packet and 255 rounds more: each round uses up a jump,
--   of which the code allows as many as the packet is long, or a label, which makes the name longer.
--   write_qname runs on the length of the name and one more. That both fuels are enough is part of the
--   theorems on them.
--   A lookup calls itself for aliases and name servers, to a depth that is an argument, since the code
--   has no bound on it; each loop of the code runs on the bound that the code gives it.
--   Readings of the clock, random draws and what the system calls come to are arguments, and so are
--   inet_pton and inet_ntop. The files of lines and fields are read on fuel, a byte of the text for each
--   round; that it is enough is part of the theorems. The loop of the server has no end: the model runs
--   as many rounds of poll as it is given.
--   The length that recvfrom gives for the address of a sender is part of what arrives. set_length of it
--   stands outside the try blocks: the exception ends a probe's thread or leaves AskRootServer,
--   QueryNameServer and the lookup, and the server catches it and sends nothing.
--   The lock of RootServerManager is modelled twice. A call of AskRootServer as a function takes what
--   may happen to the table before and behind the choice of each attempt as an argument. The step
--   relation of Roots/Threads has the mutex, the place of each thread and every interleaving of their
--   steps; the wait of five seconds may end at any time in it.
--
-- What is not modelled
--   Printing, the closing of the configuration file, and the hash of cache keys: they have no effect on
--   what the program answers. Overflow of the clock is left aside: a time is a natural number. The
--   condition variable is modelled by the wait alone, and the destruction of RootServerManager by the
--   stop that its destructor requests: what is left of it has no step.
pub mod Common
pub mod Buffer
pub mod Header
pub mod Address
pub mod Question
pub mod Record
pub mod Packet
pub mod Cache
pub mod Net
pub mod Roots
pub mod Resolver
pub mod Config
pub mod Server
