-- ===== src/Resolver/Final.antt =====
-- The responses that the resolver makes: from a response it was given, and from the cache.
use dns_server_cpp.Cache.Defs.{CacheResult, DnsCacheEntry}
use dns_server_cpp.Common.{Bool, ap, false, refl, true, ℕ, ◌∙◌, ◌≡◌}
use dns_server_cpp.Header.Defs.{
  DnsHeader, empty_header, get_result_code, is_authoritative, is_response, is_truncated, noerror,
  recursion_available, recursion_desired, result_code_from_num, set_authoritative, set_flag,
  set_recursion_available, set_recursion_desired, set_response, set_result_code,
}
use dns_server_cpp.Header.Flags.{
  FlagView, set_authoritative-view, set_available-view, set_code-view, set_desired-view,
  set_response-view, view_flags,
}
use dns_server_cpp.Packet.Defs.{DnsPacket}
use dns_server_cpp.Resolver.Defs.{
  cached_header, cached_response, entry_code, finalize_header, finalize_response, question_or,
}

-- What a client sees of a response to its query: the ID of the query, and flags that say response,
-- recursion available, recursion desired as in the query, and no authority.
pub record RepliesTo (query response : DnsPacket) : Type 0 where
  pub same_id : response.header.id ≡ query.header.id
  pub is_reply : is_response response.header ≡ true
  pub is_available : recursion_available response.header ≡ true
  pub is_desired : recursion_desired response.header ≡ recursion_desired query.header
  pub no_authority : is_authoritative response.header ≡ false

set_flag-id : (k : ℕ) (v : Bool) (h : DnsHeader) → (set_flag k v h).id ≡ h.id
set_flag-id k true h = refl
set_flag-id k false h = refl

-- The flags do not depend on the ID.
view_flags_of_flags : (i : ℕ) (h : DnsHeader) → view_flags (record h { id = i }) ≡ view_flags h
unfolding view_flags is_response is_authoritative is_truncated recursion_desired recursion_available
    get_result_code
view_flags_of_flags i h = refl

pub finalize_header-view :
    (query h : DnsHeader)
    → view_flags (finalize_header query h) ≡ record (view_flags h) {
      response = true;
      authoritative = false;
      available = true;
      desired = recursion_desired query;
    }
unfolding finalize_header
finalize_header-view query h =
    let h0 : DnsHeader = record h { id = query.id } in
    let h1 : DnsHeader = set_response true h0 in
    let h2 : DnsHeader = set_authoritative false h1 in
    let h3 : DnsHeader = set_recursion_available true h2 in
    set_desired-view (recursion_desired query) h3
    ∙ ap (λ (v : FlagView). record v { desired = recursion_desired query })
        (set_available-view true h2
          ∙ ap (λ (v : FlagView). record v { available = true })
              (set_authoritative-view false h1
                ∙ ap (λ (v : FlagView). record v { authoritative = false })
                    (set_response-view true h0
                      ∙ ap (λ (v : FlagView). record v { response = true })
                          (view_flags_of_flags query.id h))))

pub finalize_header-id : (query h : DnsHeader) → (finalize_header query h).id ≡ query.id
unfolding finalize_header set_recursion_desired set_recursion_available set_authoritative
    set_response
finalize_header-id query h = set_flag-id 8 (recursion_desired query) _

-- A response that is finalized replies to the query: it has the query's ID and its wish for
-- recursion, offers recursion and claims no authority; its code, its truncation and its answers are
-- those of the response, and so is its question, unless it had none.
pub finalize_response-RepliesTo :
    (response query : DnsPacket)
    → is_response response.header ≡ true
    → RepliesTo query (finalize_response response query)
      × ((view_flags (finalize_response response query).header).code
          ≡ (view_flags response.header).code)
      × ((view_flags (finalize_response response query).header).truncated
          ≡ (view_flags response.header).truncated)
      × ((finalize_response response query).answers ≡ response.answers)
      × ((finalize_response response query).question ≡ question_or response.question query.question)
unfolding finalize_response view_flags
finalize_response-RepliesTo response query h =
    let view = finalize_header-view query.header response.header in
    rw h (
      record {
        same_id = finalize_header-id query.header response.header;
        is_reply = ap (λ (v : FlagView). v.response) view;
        is_available = ap (λ (v : FlagView). v.available) view;
        is_desired = ap (λ (v : FlagView). v.desired) view;
        no_authority = ap (λ (v : FlagView). v.authoritative) view;
      },
      ap (λ (v : FlagView). v.code) view,
      ap (λ (v : FlagView). v.truncated) view,
      refl,
      refl,
    )

cached_header-view :
    (query : DnsHeader) (result : CacheResult)
    → view_flags (cached_header query result) ≡ record {
      response = true;
      authoritative = false;
      truncated = false;
      desired = recursion_desired query;
      available = true;
      code = entry_code result;
    }
unfolding cached_header
cached_header-view query result =
    let h0 : DnsHeader = record empty_header { id = query.id; flags = 0 } in
    let h1 : DnsHeader = set_response true h0 in
    let h2 : DnsHeader = set_recursion_desired (recursion_desired query) h1 in
    let h3 : DnsHeader = set_recursion_available true h2 in
    let fresh : view_flags h0 ≡ record {
      response = false;
      authoritative = false;
      truncated = false;
      desired = false;
      available = false;
      code = noerror;
    } =
      unfold view_flags is_response is_authoritative is_truncated recursion_desired
        recursion_available get_result_code result_code_from_num in
      refl in
    set_code-view (entry_code result) h3
    ∙ ap (λ (v : FlagView). record v { code = entry_code result })
        (set_available-view true h2
          ∙ ap (λ (v : FlagView). record v { available = true })
              (set_desired-view (recursion_desired query) h1
                ∙ ap (λ (v : FlagView). record v { desired = recursion_desired query })
                    (set_response-view true h0
                      ∙ ap (λ (v : FlagView). record v { response = true }) fresh)))

cached_header-id :
    (query : DnsHeader) (result : CacheResult) → (cached_header query result).id ≡ query.id
unfolding cached_header set_recursion_desired set_recursion_available set_response set_result_code
cached_header-id query result = set_flag-id 8 (recursion_desired query) _

-- An answer from the cache replies to the query, with the code of the entry: no error for records and
-- for a name without records, and the code for a name that does not exist.
pub cached_response-RepliesTo :
    (query : DnsPacket) (e : DnsCacheEntry)
    → RepliesTo query (cached_response query e)
      × ((view_flags (cached_response query e).header).code ≡ entry_code e.result)
      × ((cached_response query e).question ≡ query.question)
unfolding cached_response view_flags
cached_response-RepliesTo query e =
    let view = cached_header-view query.header e.result in
    (
      record {
        same_id = cached_header-id query.header e.result;
        is_reply = ap (λ (v : FlagView). v.response) view;
        is_available = ap (λ (v : FlagView). v.available) view;
        is_desired = ap (λ (v : FlagView). v.desired) view;
        no_authority = ap (λ (v : FlagView). v.authoritative) view;
      },
      ap (λ (v : FlagView). v.code) view,
      refl,
    )
