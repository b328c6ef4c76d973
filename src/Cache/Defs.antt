-- ===== src/Cache/Defs.antt =====
-- DnsCache (include/DnsCache.hpp, src/DnsCache.cxx). The clock is an argument: each reading of it that
-- the code makes is one number, in nanoseconds. The hash map is a list of pairs of a key and an
-- entry. A string is the list of its bytes.
use dns_server_cpp.Address.Defs.{bytes_eq}
use dns_server_cpp.Common.{
  Bool, List, Option, [], false, has_value, if◌then◌else◌, is_empty, leb, length, ltb, map, none,
  some, true, ℕ, ◌%◌, ◌&&◌, ◌*◌, ◌+◌, ◌==◌, ◌^◌, ◌∷◌,
}
use dns_server_cpp.Question.Defs.{QuestionType}
use dns_server_cpp.Record.Defs.{DnsRecord}

pub data CacheResult : Type 0 where
  positive nxdomain nodata : CacheResult

pub record DnsCacheEntry : Type 0 where
  pub records : List DnsRecord
  pub result : CacheResult
  pub expiration_time : ℕ

pub record DnsCacheKey : Type 0 where
  pub domain : List ℕ
  pub type : QuestionType

pub record DnsCache : Type 0 where
  pub cache : List (DnsCacheKey × DnsCacheEntry)
  pub cachehit_count : ℕ
  pub cachemiss_count : ℕ

-- `DnsCache() = default`.
abbrev pub empty_cache : DnsCache
empty_cache = record { cache = []; cachehit_count = 0; cachemiss_count = 0 }

-- `std::chrono::seconds` in the clock's unit.
abbrev pub second : ℕ
second = 10 ^ 9

-- The entry constructors read the clock once.
abbrev pub make_entry : List DnsRecord → CacheResult → ℕ → ℕ → DnsCacheEntry
make_entry records result ttl now = record {
  records = records;
  result = result;
  expiration_time = now + ttl * second;
}

unfoldable pub expired : DnsCacheEntry → ℕ → Bool
expired entry now = leb entry.expiration_time now

-- `std::tolower` in the "C" locale.
unfoldable pub to_lower : ℕ → ℕ
to_lower c = if leb 65 c && leb c 90 then c + 32 else c

unfoldable pub normalize : List ℕ → List ℕ
normalize s = map to_lower s

-- The constructor of a key.
unfoldable pub make_key : List ℕ → QuestionType → DnsCacheKey
make_key d t = record { domain = normalize d; type = t }

-- `operator==`.
unfoldable pub key_eq : DnsCacheKey → DnsCacheKey → Bool
key_eq k k' = bytes_eq k.domain k'.domain && (k.type == k'.type)

-- `cache.find(key)`.
unfoldable pub find : DnsCacheKey → List (DnsCacheKey × DnsCacheEntry) → Option DnsCacheEntry
find k [] = none
find k ((k', e) ∷ c) = if key_eq k k' then some e else find k c

-- `cache.erase`, which does nothing for a key that is not there.
unfoldable pub erase :
    DnsCacheKey → List (DnsCacheKey × DnsCacheEntry) → List (DnsCacheKey × DnsCacheEntry)
erase k [] = []
erase k ((k', e) ∷ c) = let rest = erase k c in if key_eq k k' then c else ((k', e) ∷ rest)

-- `cache[key] = entry`.
unfoldable pub assign :
    DnsCacheKey
    → DnsCacheEntry
    → List (DnsCacheKey × DnsCacheEntry)
    → List (DnsCacheKey × DnsCacheEntry)
assign k e [] = (k, e) ∷ []
assign k e ((k', e') ∷ c) =
    let rest = assign k e c in if key_eq k k' then ((k', e) ∷ c) else ((k', e') ∷ rest)

abbrev pub is_positive : CacheResult → Bool
is_positive positive = true
is_positive nxdomain = false
is_positive nodata = false

-- `put` of an entry, which reads the clock once.
unfoldable pub put : DnsCacheKey → DnsCacheEntry → ℕ → DnsCache → DnsCache
put key entry now c =
    if expired entry now
    then c
    else if is_positive entry.result && is_empty entry.records
    then c
    else record c { cache = assign key entry c.cache }

-- The smaller of a TTL and the TTL of a record that has one.
abbrev pub lower_ttl : ℕ → ℕ → ℕ
lower_ttl min_ttl ttl = if ltb 0 ttl && ltb ttl min_ttl then ttl else min_ttl

-- The loop over the records.
unfoldable pub min_ttl_of : ℕ → List DnsRecord → ℕ
min_ttl_of min_ttl [] = min_ttl
min_ttl_of min_ttl (r ∷ rs) = min_ttl_of (lower_ttl min_ttl r.ttl) rs

-- `ttl > 0 ? ttl : 60`.
abbrev pub ttl_or_default : ℕ → ℕ
ttl_or_default ttl = if ltb 0 ttl then ttl else 60

-- `put` of records: the clock is read by the entry's constructor and again by `put`.
unfoldable pub put_records : DnsCacheKey → List DnsRecord → ℕ → ℕ → ℕ → DnsCache → DnsCache
put_records key records ttl made now c =
    if is_empty records
    then c
    else put key (make_entry records positive (min_ttl_of (ttl_or_default ttl) records) made) now c

unfoldable pub put_record : DnsCacheKey → DnsRecord → ℕ → ℕ → DnsCache → DnsCache
put_record key r made now c =
    put key (make_entry (r ∷ []) positive (ttl_or_default r.ttl) made) now c

unfoldable pub put_result : DnsCacheKey → CacheResult → ℕ → ℕ → ℕ → DnsCache → DnsCache
put_result key result ttl made now c =
    put key (make_entry [] result (ttl_or_default ttl) made) now c

abbrev pub count_miss : DnsCache → DnsCache
count_miss c = record c { cachemiss_count = (c.cachemiss_count + 1) % 2 ^ 64 }

abbrev pub count_hit : DnsCache → DnsCache
count_hit c = record c { cachehit_count = (c.cachehit_count + 1) % 2 ^ 64 }

-- What `get` does with the entry that it found.
abbrev pub get_found :
    DnsCacheKey → ℕ → DnsCache → Option DnsCacheEntry → Option DnsCacheEntry × DnsCache
get_found key now c none = (none, count_miss c)
get_found key now c (some e) =
    if expired e now
    then (none, count_miss (record c { cache = erase key c.cache }))
    else (some e, count_hit c)

unfoldable pub get : DnsCacheKey → ℕ → DnsCache → Option DnsCacheEntry × DnsCache
get key now c = get_found key now c (find key c.cache)

unfoldable pub remove : DnsCacheKey → DnsCache → DnsCache
remove key c = record c { cache = erase key c.cache }

unfoldable pub contains : DnsCacheKey → ℕ → DnsCache → Bool × DnsCache
contains key now c = let (e, c') = get key now c in (has_value e, c')

unfoldable pub clear : DnsCache → DnsCache
clear c = record c { cache = [] }

unfoldable pub size : DnsCache → ℕ
size c = length c.cache
