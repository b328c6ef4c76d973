-- ===== src/Cache/Machine.antt =====
-- The cache as a machine on sequences of calls, and the map with expiry that it implements.
use dns_server_cpp.Cache.Defs.{
  DnsCache, DnsCacheEntry, DnsCacheKey, assign, clear, erase, expired, find, get, get_found,
  is_positive, key_eq, put, remove,
}
use dns_server_cpp.Cache.Entries.{
  IsUnique, find-assign-other, find-assign-same, find-erase-other, find-erase-same, first_cases,
}
use dns_server_cpp.Cache.Keys.{key_eq_iff}
use dns_server_cpp.Common.{
  Bool, Bool-cases, List, Option, [], ap, arith, fun_ext, if◌then◌else◌, inl, inr, is_empty, none,
  not, refl, some, ℕ, ◌%◌, ◌&&◌, ◌+◌, ◌^◌, ◌||◌, ◌∙◌, ◌∷◌, ◌≡◌,
}

-- The calls that reach the table; `put_records`, `put_record` and `put_result` are a `put` or nothing,
-- and `contains` is a `get`. A number is a reading of the clock.
pub data Operation : Type 0 where
  put_call : DnsCacheKey → DnsCacheEntry → ℕ → Operation
  get_call : DnsCacheKey → ℕ → Operation
  remove_call : DnsCacheKey → Operation
  clear_call : Operation

-- The answer of a call (of `get` alone) and the cache behind it.
unfoldable pub call : Operation → DnsCache → Option DnsCacheEntry × DnsCache
call (put_call k e now) c = (none, put k e now c)
call (get_call k now) c = get k now c
call (remove_call k) c = (none, remove k c)
call clear_call c = (none, clear c)

unfoldable pub calls : List Operation → DnsCache → List (Option DnsCacheEntry) × DnsCache
calls [] c = ([], c)
calls (op ∷ ops) c =
    let first = call op c in let rest = calls ops (first.1) in (first.0 ∷ rest.0, rest.1)

-- What the cache promises: a map from keys to entries, without order, with its counters.
pub record CacheMap : Type 0 where
  pub entry : DnsCacheKey → Option DnsCacheEntry
  pub hits : ℕ
  pub misses : ℕ

abbrev pub as_map : DnsCache → CacheMap
as_map c = record {
  entry = λ k. find k c.cache;
  hits = c.cachehit_count;
  misses = c.cachemiss_count;
}

abbrev pub with_entry : DnsCacheKey → Option DnsCacheEntry → CacheMap → CacheMap
with_entry k v m = record m { entry = λ x. if key_eq x k then v else m.entry x }

abbrev pub miss : CacheMap → CacheMap
miss m = record m { misses = (m.misses + 1) % 2 ^ 64 }

-- An entry is kept if it has not expired and, being positive, holds records.
abbrev pub is_kept : DnsCacheEntry → ℕ → Bool
is_kept e now = not (expired e now || (is_positive e.result && is_empty e.records))

-- A look-up forgets an entry that has expired, and never answers with one.
abbrev pub map_found :
    DnsCacheKey → ℕ → CacheMap → Option DnsCacheEntry → Option DnsCacheEntry × CacheMap
map_found k now m none = (none, miss m)
map_found k now m (some e) =
    if expired e now
    then (none, miss (with_entry k none m))
    else (some e, record m { hits = (m.hits + 1) % 2 ^ 64 })

unfoldable pub map_call : Operation → CacheMap → Option DnsCacheEntry × CacheMap
map_call (put_call k e now) m = (none, if is_kept e now then with_entry k (some e) m else m)
map_call (get_call k now) m = map_found k now m (m.entry k)
map_call (remove_call k) m = (none, with_entry k none m)
map_call clear_call m = (none, record m { entry = λ _. none })

unfoldable pub map_calls : List Operation → CacheMap → List (Option DnsCacheEntry) × CacheMap
map_calls [] m = ([], m)
map_calls (op ∷ ops) m =
    let first = map_call op m in let rest = map_calls ops (first.1) in (first.0 ∷ rest.0, rest.1)

pub put_cases :
    (k : DnsCacheKey) (e : DnsCacheEntry) (now : ℕ) (c : DnsCache)
    → put k e now c ≡ (if is_kept e now then record c { cache = assign k e c.cache } else c)
unfolding put
put_cases k e now c = ground arith

as_map-assign :
    (k : DnsCacheKey) (e : DnsCacheEntry) (c : DnsCache)
    → as_map (record c { cache = assign k e c.cache }) ≡ with_entry k (some e) (as_map c)
as_map-assign k e c = ap (λ f. record (as_map c) { entry = f }) (fun_ext λ x. go x)
  where
    go :
        (x : DnsCacheKey)
        → find x (assign k e c.cache) ≡ (if key_eq x k then some e else find x c.cache)
    go x = elim (first_cases x k) [
      | inl same ↦
          rw ((key_eq_iff x k).1 same)
            (ap (λ y. find y (assign k e c.cache)) same ∙ find-assign-same k e c.cache)
      | inr f ↦ rw f (find-assign-other k e x c.cache f)
    ]

as_map-erase :
    (k : DnsCacheKey) (c : DnsCache)
    → IsUnique c.cache
    → as_map (record c { cache = erase k c.cache }) ≡ with_entry k none (as_map c)
as_map-erase k c u = ap (λ f. record (as_map c) { entry = f }) (fun_ext λ x. go x)
  where
    go :
        (x : DnsCacheKey) → find x (erase k c.cache) ≡ (if key_eq x k then none else find x c.cache)
    go x = elim (first_cases x k) [
      | inl same ↦
          rw ((key_eq_iff x k).1 same)
            (ap (λ y. find y (erase k c.cache)) same ∙ find-erase-same k c.cache u)
      | inr f ↦ rw f (find-erase-other k x c.cache f)
    ]

-- The look-up on what `find` gives.
get_found-refines :
    (k : DnsCacheKey) (now : ℕ) (c : DnsCache) (o : Option DnsCacheEntry)
    → IsUnique c.cache
    → ((get_found k now c o).0, as_map (get_found k now c o).1) ≡ map_found k now (as_map c) o
get_found-refines k now c none u = refl
get_found-refines k now c (some e) u = elim (Bool-cases (expired e now)) [
  | inl t ↦ rw t (ap (λ m. (none, miss m)) (as_map-erase k c u))
  | inr f ↦ rw f
]

as_map-put :
    (k : DnsCacheKey) (e : DnsCacheEntry) (now : ℕ) (c : DnsCache)
    → as_map (put k e now c)
      ≡ (if is_kept e now then with_entry k (some e) (as_map c) else as_map c)
as_map-put k e now c = elim (Bool-cases (is_kept e now)) [
  | inl t ↦ rw (put_cases k e now c, t) (as_map-assign k e c)
  | inr f ↦ rw (put_cases k e now c, f)
]

-- Each call on a cache with distinct keys answers as the map with expiry does, and leaves the cache
-- that represents the map behind it.
pub call-refines :
    (op : Operation) (c : DnsCache)
    → IsUnique c.cache
    → ((call op c).0, as_map (call op c).1) ≡ map_call op (as_map c)
unfolding call map_call
call-refines (put_call k e now) c u = ap (λ m. (none, m)) (as_map-put k e now c)
call-refines (get_call k now) c u = unfold get in get_found-refines k now c (find k c.cache) u
call-refines (remove_call k) c u = unfold remove in ap (λ m. (none, m)) (as_map-erase k c u)
call-refines clear_call c u = unfold clear find in refl
