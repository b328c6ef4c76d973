-- ===== src/Cache/Runs.antt =====
-- Sequences of calls: the invariant of the cache, and what a whole run does.
use dns_server_cpp.Cache.Defs.{
  DnsCache, DnsCacheEntry, DnsCacheKey, assign, clear, empty_cache, erase, expired, find, get,
  get_found, is_positive, put, remove,
}
use dns_server_cpp.Cache.Entries.{
  IsUnique, assign-IsUnique, erase-IsUnique, find-assign-other, find-assign-same, find-erase-other,
  find-erase-same, first_cases,
}
use dns_server_cpp.Cache.Machine.{
  Operation, as_map, call, call-refines, calls, clear_call, get_call, is_kept, map_calls, put_call,
  put_cases, remove_call,
}
use dns_server_cpp.Common.{
  Bool-cases, List, Option, [], ap, arith, false, inl, inr, is_empty, none, refl, some,
  some-injective, subst, suc, sym, ℕ, ◌%◌, ◌&&◌, ◌+◌, ◌^◌, ◌∙◌, ◌∷◌, ◌≡◌,
}

-- The invariant of the cache.
pub record IsCache (c : DnsCache) : Type 0 where
  pub unique : IsUnique c.cache
  pub filled :
      (k : DnsCacheKey) (e : DnsCacheEntry)
      → find k c.cache ≡ some e
      → (is_positive e.result && is_empty e.records) ≡ false

pub empty_cache-IsCache : IsCache empty_cache
unfolding find
empty_cache-IsCache = record { unique = tt; filled = λ k e h. cc h }

abbrev IsFilled : DnsCacheEntry → Type 0
IsFilled e = (is_positive e.result && is_empty e.records) ≡ false

assign-IsCache :
    (k : DnsCacheKey) (e : DnsCacheEntry) (c : DnsCache)
    → IsFilled e
    → IsCache c
    → IsCache (record c { cache = assign k e c.cache })
assign-IsCache k e c h v = record {
  unique = assign-IsUnique k e c.cache v.unique;
  filled = λ x d f. elim (first_cases x k) [
    | inl same ↦
        let here : some e ≡ some d =
          sym (ap (λ y. find y (assign k e c.cache)) same ∙ find-assign-same k e c.cache) ∙ f in
        subst IsFilled (some-injective here) h
    | inr n ↦ v.filled x d (sym (find-assign-other k e x c.cache n) ∙ f)
  ];
}

erase-IsCache :
    (k : DnsCacheKey) (c : DnsCache) → IsCache c → IsCache (record c { cache = erase k c.cache })
erase-IsCache k c v = record {
  unique = erase-IsUnique k c.cache v.unique;
  filled = λ x d f. elim (first_cases x k) [
    | inl same ↦
        cc (sym (ap (λ y. find y (erase k c.cache)) same ∙ find-erase-same k c.cache v.unique) ∙ f)
    | inr n ↦ v.filled x d (sym (find-erase-other k x c.cache n) ∙ f)
  ];
}

counted-IsCache :
    (c : DnsCache) (h m : ℕ)
    → IsCache c
    → IsCache (record c { cachehit_count = h; cachemiss_count = m })
counted-IsCache c h m v = record { unique = v.unique; filled = v.filled }

pub get_found-IsCache :
    (k : DnsCacheKey) (now : ℕ) (c : DnsCache) (o : Option DnsCacheEntry)
    → IsCache c
    → IsCache (get_found k now c o).1
get_found-IsCache k now c none v = counted-IsCache c _ _ v
get_found-IsCache k now c (some e) v = elim (Bool-cases (expired e now)) [
  | inl t ↦ rw t (counted-IsCache _ _ _ (erase-IsCache k c v))
  | inr f ↦ rw f (counted-IsCache c _ _ v)
]

pub put-IsCache :
    (k : DnsCacheKey) (e : DnsCacheEntry) (now : ℕ) (c : DnsCache)
    → IsCache c
    → IsCache (put k e now c)
put-IsCache k e now c v = elim (Bool-cases (is_kept e now)) [
  | inl t ↦ rw (put_cases k e now c, t) (assign-IsCache k e c (ground (arith, t)) v)
  | inr f ↦ rw (put_cases k e now c, f) v
]

-- Every call keeps the invariant: distinct keys, and records in every positive entry.
pub call-IsCache : (op : Operation) (c : DnsCache) → IsCache c → IsCache (call op c).1
unfolding call get remove clear find
call-IsCache (put_call k e now) c v = put-IsCache k e now c v
call-IsCache (get_call k now) c v = get_found-IsCache k now c (find k c.cache) v
call-IsCache (remove_call k) c v = erase-IsCache k c v
call-IsCache clear_call c v = record { unique = tt; filled = λ k e f. cc f }

-- A run of calls from a cache with the invariant gives the answers of the map with expiry, ends in
-- the cache that represents its last state, and keeps the invariant.
calls-refines :
    (ops : List Operation) (c : DnsCache)
    → IsCache c
    → (((calls ops c).0, as_map (calls ops c).1) ≡ map_calls ops (as_map c))
      × IsCache (calls ops c).1
unfolding calls map_calls
calls-refines [] c v = (refl, v)
calls-refines (op ∷ ops) c v =
    let one = call-refines op c v.unique in
    let (later, kept) = calls-refines ops (call op c).1 (call-IsCache op c v) in
    (
      ap (λ r. ((call op c).0 ∷ r.0, r.1)) later
          ∙ ap (λ r. (r.0 ∷ (map_calls ops r.1).0, (map_calls ops r.1).1)) one,
      kept,
    )

-- The number of look-ups in a run.
abbrev pub look_ups : List Operation → ℕ
look_ups [] = 0
look_ups (put_call k e now ∷ ops) = look_ups ops
look_ups (get_call k now ∷ ops) = suc (look_ups ops)
look_ups (remove_call k ∷ ops) = look_ups ops
look_ups (clear_call ∷ ops) = look_ups ops

get_found_counts :
    (k : DnsCacheKey) (now : ℕ) (c : DnsCache) (o : Option DnsCacheEntry)
    → (((get_found k now c o).1).cachehit_count + ((get_found k now c o).1).cachemiss_count)
        % 2 ^ 64
      ≡ (c.cachehit_count + c.cachemiss_count + 1) % 2 ^ 64
get_found_counts k now c none = omega arith
get_found_counts k now c (some e) = ground arith

put_counts :
    (k : DnsCacheKey) (e : DnsCacheEntry) (now : ℕ) (c : DnsCache)
    → ((put k e now c).cachehit_count ≡ c.cachehit_count)
      × ((put k e now c).cachemiss_count ≡ c.cachemiss_count)
put_counts k e now c = elim (Bool-cases (is_kept e now)) [
  | inl t ↦ rw (put_cases k e now c, t) (refl, refl)
  | inr f ↦ rw (put_cases k e now c, f) (refl, refl)
]

-- Hits and misses together count the look-ups of a run, modulo the range of the counters.
pub calls_counts :
    (ops : List Operation) (c : DnsCache)
    → (((calls ops c).1).cachehit_count + ((calls ops c).1).cachemiss_count) % 2 ^ 64
      ≡ (c.cachehit_count + c.cachemiss_count + look_ups ops) % 2 ^ 64
unfolding calls call get remove clear
calls_counts [] c = omega arith
calls_counts (put_call k e now ∷ ops) c =
    omega (arith, put_counts k e now c, calls_counts ops (put k e now c))
calls_counts (get_call k now ∷ ops) c = omega (
  arith,
  get_found_counts k now c (find k c.cache),
  calls_counts ops (get_found k now c (find k c.cache)).1,
)
calls_counts (remove_call k ∷ ops) c = calls_counts ops (remove k c)
calls_counts (clear_call ∷ ops) c = calls_counts ops (clear c)
