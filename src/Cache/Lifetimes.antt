-- ===== src/Cache/Lifetimes.antt =====
-- How long an entry lives: the TTL that `put` of records chooses, and what `get` answers before and
-- after the end of it.
use dns_server_cpp.Cache.Defs.{
  DnsCache, DnsCacheEntry, DnsCacheKey, assign, expired, find, get, get_found, lower_ttl,
  make_entry, min_ttl_of, positive, put, put_records, ttl_or_default,
}
use dns_server_cpp.Cache.Entries.{IsUnique, assign-IsUnique, find-assign-same, find-erase-same}
use dns_server_cpp.Common.{
  All, Bool-cases, List, Option, [], ap, arith, false, if◌then◌else◌, inl, inr, leb, ltb, none,
  refl, some, some-injective, subst, true, ℕ, ◌<◌, ◌∷◌, ◌≡◌, ◌≤◌,
}
use dns_server_cpp.Record.Defs.{DnsRecord}

-- From a positive TTL the loop over the records ends with a positive one that is at most the TTL it
-- began with and at most every positive TTL among the records.
pub min_ttl_of_lem :
    (t : ℕ) (rs : List DnsRecord)
    → 0 < t
    → (0 < min_ttl_of t rs)
      × (min_ttl_of t rs ≤ t)
      × All (λ r. 0 < r.ttl → min_ttl_of t rs ≤ r.ttl) rs
unfolding min_ttl_of
min_ttl_of_lem t [] h = (h, omega arith, tt)
min_ttl_of_lem t (r ∷ rs) h =
    let (above, below, all) = min_ttl_of_lem (lower_ttl t r.ttl) rs (ground arith) in
    (above, ground (arith, below), (λ p. ground (arith, below, p), all))

-- The live part of a stored entry: the entry before its expiration, nothing from then on.
abbrev pub live_at : ℕ → DnsCacheEntry → Option DnsCacheEntry
live_at now e = if ltb now e.expiration_time then some e else none

-- A look-up of a key whose entry is there.
get_found_lem :
    (k : DnsCacheKey) (e : DnsCacheEntry) (now : ℕ) (c : DnsCache)
    → IsUnique c.cache
    → find k c.cache ≡ some e
    → ((get_found k now c (some e)).0 ≡ live_at now e)
      × (find k ((get_found k now c (some e)).1).cache ≡ live_at now e)
unfolding expired
get_found_lem k e now c u found = elim (Bool-cases (leb e.expiration_time now)) [
  | inl t ↦
      let over : ltb now e.expiration_time ≡ false = ground (arith, t) in
      rw (t, over) (refl, find-erase-same k c.cache u)
  | inr f ↦
      let before : ltb now e.expiration_time ≡ true = ground (arith, f) in
      rw (f, before) (refl, found)
]

-- The entry that `put_records` stores.
abbrev pub records_entry : List DnsRecord → ℕ → ℕ → DnsCacheEntry
records_entry rs ttl made = make_entry rs positive (min_ttl_of (ttl_or_default ttl) rs) made

pub put_records_lem :
    (k : DnsCacheKey) (r : DnsRecord) (rs : List DnsRecord) (ttl made now : ℕ) (c : DnsCache)
    → now < (records_entry (r ∷ rs) ttl made).expiration_time
    → put_records k (r ∷ rs) ttl made now c
      ≡ record c { cache = assign k (records_entry (r ∷ rs) ttl made) c.cache }
unfolding put_records put expired
put_records_lem k r rs ttl made now c h =
    let live : leb (records_entry (r ∷ rs) ttl made).expiration_time now ≡ false = ground arith in
    rw live

-- Records that are put into a table of distinct keys, by a clock that has not reached their end
-- yet, are what a look-up of the same key answers until the TTL that `put` chose has passed; from
-- then on the look-up answers nothing. The table behind the look-up holds for the key what was
-- answered: an entry that has expired is gone.
pub get-put_records :
    (k : DnsCacheKey) (r : DnsRecord) (rs : List DnsRecord) (ttl made now later : ℕ) (c : DnsCache)
    → IsUnique c.cache
    → now < (records_entry (r ∷ rs) ttl made).expiration_time
    → ((get k later (put_records k (r ∷ rs) ttl made now c)).0
        ≡ live_at later (records_entry (r ∷ rs) ttl made))
      × (find k ((get k later (put_records k (r ∷ rs) ttl made now c)).1).cache
          ≡ live_at later (records_entry (r ∷ rs) ttl made))
unfolding get
get-put_records k r rs ttl made now later c u h =
    let entry : DnsCacheEntry = records_entry (r ∷ rs) ttl made in
    let found : find k (assign k entry c.cache) ≡ some entry = find-assign-same k entry c.cache in
    rw (put_records_lem k r rs ttl made now c h, found)
      (get_found_lem k entry later _ (assign-IsUnique k entry c.cache u) found)

get_found-fresh :
    (k : DnsCacheKey) (e : DnsCacheEntry) (now : ℕ) (c : DnsCache) (o : Option DnsCacheEntry)
    → (get_found k now c o).0 ≡ some e
    → (now < e.expiration_time) × (o ≡ some e) × (((get_found k now c o).1).cache ≡ c.cache)
get_found-fresh k e now c none h = cc h
get_found-fresh k e now c (some d) h = elim (Bool-cases (expired d now)) [
  | inl t ↦ cc (simp t at h)
  | inr f ↦
      let same : d ≡ e = some-injective (simp f at h) in
      let before : now < d.expiration_time = unfold expired in ground (arith, f) in
      rw f (subst (λ x. now < x.expiration_time) same before, ap some same, refl)
]

-- Where a look-up answers with an entry, it is the one that the table holds for the key, it has not
-- expired, and the table stays as it is.
pub get-fresh :
    (k : DnsCacheKey) (e : DnsCacheEntry) (now : ℕ) (c : DnsCache)
    → (get k now c).0 ≡ some e
    → (now < e.expiration_time) × (find k c.cache ≡ some e) × (((get k now c).1).cache ≡ c.cache)
unfolding get
get-fresh k e now c h = get_found-fresh k e now c (find k c.cache) h
