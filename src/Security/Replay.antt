-- ===== src/Security/Replay.antt =====
-- `RequestReplayCache` of internal/security/request_replay.go. The map of entries is the list of them in
-- the order in which `range` meets them; that order matters only for which of several equally
-- old entries is evicted. Times are nanoseconds since the zero time.
pub mod Validity
use m3_repoworker.Prelude.{
  ℕ, ◌+◌, Bool, true, false, ◌&&◌, ◌||◌, not, List, [], ◌∷◌, Bytes, bytes_eq, Option, none, some,
  ltb, ◌==◌, if◌then◌else◌, exists, length,
}
use m3_repoworker.Security.Types.{Error, Result, ok, err, denied, replay, request_metadata}
use m3_repoworker.Security.Values.{valid_opaque, valid_id}

pub record EntryKey : Type 0 where
  pub mcp_session : Bytes
  pub request_id : Bytes
  pub sequence : ℕ

pub record Entry : Type 0 where
  pub key : EntryKey
  pub open key use *
  pub transport_id : Bytes
  pub auth_session_id : Bytes
  pub principal_id : Bytes
  pub seen_at : ℕ

pub record Cache : Type 0 where
  pub max : ℕ
  pub ttl : ℕ
  pub entries : List Entry

-- One call of `Accept`, with the clock's answer.
pub record Call : Type 0 where
  pub now : ℕ
  pub key : EntryKey
  pub open key use *
  pub transport_id : Bytes
  pub auth_session_id : Bytes
  pub principal_id : Bytes

abbrev default_max : ℕ
default_max = 2048

abbrev default_ttl : ℕ
default_ttl = 1800000000000

-- `NewRequestReplayCache`; a bound that is not positive is zero, and gets the default.
unfoldable pub new_cache : ℕ → ℕ → Result Cache
new_cache max_entries ttl =
    let max = if max_entries == 0 then default_max else max_entries in
    let kept_for = if ttl == 0 then default_ttl else ttl in
    if ltb 65536 max || ltb 86400000000000 kept_for
    then err denied
    else ok (record { max = max; ttl = kept_for; entries = [] })

-- `NewDefaultRequestReplayCache`.
unfoldable pub default_cache : Result Cache
default_cache = new_cache default_max default_ttl

unfoldable pub well_formed : Call → Bool
well_formed call =
    valid_opaque call.transport_id
    && valid_opaque call.auth_session_id
    && valid_id call.principal_id
    && valid_opaque call.mcp_session
    && valid_opaque call.request_id
    && not (call.sequence == 0)

-- The loop that drops the entries whose time is over.
unfoldable pub unexpired : ℕ → ℕ → List Entry → List Entry
unexpired now ttl [] = []
unexpired now ttl (entry ∷ entries) =
    let rest = unexpired now ttl entries in
    if not (ltb now (entry.seen_at + ttl)) then rest else entry ∷ rest

-- A used request identity, or a used sequence number of the same MCP session.
unfoldable pub reuses : EntryKey → Entry → Bool
reuses key entry =
    bytes_eq entry.request_id key.request_id
    || (bytes_eq entry.mcp_session key.mcp_session && entry.sequence == key.sequence)

-- The loop that looks for the oldest entry, from the oldest one so far.
unfoldable pub oldest_from : Entry → List Entry → Entry
oldest_from oldest [] = oldest
oldest_from oldest (entry ∷ entries) =
    oldest_from (if ltb entry.seen_at oldest.seen_at then entry else oldest) entries

unfoldable pub key_eq : EntryKey → EntryKey → Bool
key_eq a b =
    bytes_eq a.mcp_session b.mcp_session
    && bytes_eq a.request_id b.request_id
    && a.sequence == b.sequence

unfoldable pub delete_key : EntryKey → List Entry → List Entry
delete_key key [] = []
delete_key key (entry ∷ entries) =
    let rest = delete_key key entries in if key_eq entry.key key then rest else entry ∷ rest

unfoldable pub evict_oldest : List Entry → List Entry
evict_oldest [] = []
evict_oldest (entry ∷ entries) = delete_key (oldest_from entry entries).key (entry ∷ entries)

unfoldable pub entry_of : Call → Entry
entry_of call = record {
  key = call.key;
  transport_id = call.transport_id;
  auth_session_id = call.auth_session_id;
  principal_id = call.principal_id;
  seen_at = call.now;
}

-- `Accept`. The entries that have expired go in every case but that of malformed metadata.
unfoldable pub accept : Call → Cache → Result (Unit {0}) × Cache
accept call c =
    let live = unexpired call.now c.ttl c.entries in
    if not (well_formed call)
    then (err request_metadata, c)
    else if exists (reuses call.key) live
    then (err replay, record c { entries = live })
    else let room = if not (ltb (length live) c.max) then evict_oldest live else live in
      (ok tt, record c { entries = entry_of call ∷ room })

-- The calls of one process, in the order in which they take the lock.
abbrev pub run : List Call → Cache → Cache
run [] c = c
run (call ∷ calls) c = run calls (accept call c).1
