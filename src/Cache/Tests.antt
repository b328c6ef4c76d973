-- ===== src/Cache/Tests.antt =====
-- Runs of the theorems on a cache with one name.
use mathlib.Core.List.{Permᴰ}
use dns_server_cpp.Address.Defs.{bytes_eq}
use dns_server_cpp.Cache.Defs.{
  DnsCache, DnsCacheEntry, DnsCacheKey, assign, empty_cache, erase, expired, find, get, key_eq,
  make_entry, min_ttl_of, positive, put, put_records, second,
}
use dns_server_cpp.Cache.Lifetimes.{get-put_records, live_at, min_ttl_of_lem, records_entry}
use dns_server_cpp.Cache.Machine.{Operation, as_map, call, calls, get_call, map_calls, put_call}
use dns_server_cpp.Cache.Orders.{Served, Served-refines, done, next_call, reordered}
use dns_server_cpp.Cache.Runs.{IsCache, calls_counts, empty_cache-IsCache, look_ups}
use dns_server_cpp.Common.{
  All, List, [], arith, none, refl, some, ◌%◌, ◌*◌, ◌+◌, ◌<◌, ◌^◌, ◌∷◌, ◌≡◌, ◌≤◌,
}
use dns_server_cpp.Question.Defs.{a_type, mx_type}
use dns_server_cpp.Record.Defs.{DnsRecord, a_record}

abbrev name_key : DnsCacheKey
name_key = record { domain = 97 ∷ []; type = a_type }

abbrev sample_answer : DnsRecord
sample_answer = record {
  name = 97 ∷ [];
  type = a_type;
  class = 1;
  ttl = 30;
  rdlength = 4;
  rdata = a_record (record { octet0 = 1; octet1 = 2; octet2 = 3; octet3 = 4 });
}

-- The entry lives 30 seconds: at 29 it is found, at 30 it is not.
get-put_records_example :
    ((get name_key (29 * second) (put_records name_key (sample_answer ∷ []) 60 0 1 empty_cache)).0
      ≡ live_at (29 * second) (records_entry (sample_answer ∷ []) 60 0))
    × (find name_key
          ((get name_key
              (29 * second)
              (put_records name_key (sample_answer ∷ []) 60 0 1 empty_cache)).1
            ).cache
        ≡ live_at (29 * second) (records_entry (sample_answer ∷ []) 60 0))
unfolding min_ttl_of
get-put_records_example =
    get-put_records name_key sample_answer [] 60 0 1 (29 * second) empty_cache tt (omega arith)

abbrev one_entry : DnsCacheEntry
one_entry = make_entry (sample_answer ∷ []) positive 30 0

abbrev one_cache : DnsCache
one_cache = record { cache = (name_key, one_entry) ∷ []; cachehit_count = 0; cachemiss_count = 0 }

min_ttl_of_example :
    (0 < min_ttl_of 60 (sample_answer ∷ []))
    × (min_ttl_of 60 (sample_answer ∷ []) ≤ 60)
    × All (λ r. 0 < r.ttl → min_ttl_of 60 (sample_answer ∷ []) ≤ r.ttl) (sample_answer ∷ [])
min_ttl_of_example = min_ttl_of_lem 60 (sample_answer ∷ []) (omega arith)

-- A put, a look-up in time and one too late.
abbrev sample_run : List Operation
sample_run =
    put_call name_key one_entry 1 ∷ get_call name_key 5 ∷ get_call name_key (31 * second) ∷ []

-- Two puts, a change of the order in the table, and a look-up.
abbrev mail_key : DnsCacheKey
mail_key = record name_key { type = mx_type }

abbrev two_puts : List Operation
two_puts = put_call name_key one_entry 1 ∷ put_call mail_key one_entry 2 ∷ get_call name_key 5 ∷ []

abbrev other_order : DnsCache
other_order = record empty_cache {
  cache = (mail_key, one_entry) ∷ (name_key, one_entry) ∷ [];
  cachehit_count = 1;
}

run_of_puts : Served two_puts empty_cache (none ∷ none ∷ some one_entry ∷ []) other_order
unfolding call put get assign find key_eq bytes_eq expired
run_of_puts = next_call (put_call name_key one_entry 1) (
    next_call (put_call mail_key one_entry 2)
      (reordered other_order.cache (Permᴰ.swap refl refl) (next_call (get_call name_key 5) done)))

Served-refines_example :
    ((none ∷ none ∷ some one_entry ∷ [], as_map other_order)
      ≡ map_calls two_puts (as_map empty_cache))
    × IsCache other_order
Served-refines_example = Served-refines run_of_puts empty_cache-IsCache

calls_counts_example :
    (((calls sample_run empty_cache).1).cachehit_count
        + ((calls sample_run empty_cache).1).cachemiss_count)
      % 2 ^ 64
    ≡ (0 + 0 + look_ups sample_run) % 2 ^ 64
calls_counts_example = calls_counts sample_run empty_cache

answers_run : (calls sample_run empty_cache).0 ≡ none ∷ some one_entry ∷ none ∷ []
unfolding calls call get find key_eq bytes_eq expired put assign erase
answers_run = refl
