-- ===== src/Security/Replay/Validity.antt =====
-- The cache stays within its bound and never holds two entries for one identity; an accepted request
-- is refused when it comes again.
use m3_repoworker.Prelude.{
  subst, ℕ, ◌+◌, ◌≤◌, ◌<◌, ◌≡◌, refl, Bool, true, false, List, [], ◌∷◌, bytes_eq_refl, ltb,
  if◌then◌else◌, exists, length, Any, arith, inl, inr, ◌⊎◌,
}
use m3_repoworker.Security.Types.{ok}
use m3_repoworker.Security.Replay.{
  EntryKey, Entry, Cache, Call, new_cache, unexpired, reuses, oldest_from, key_eq, delete_key,
  evict_oldest, entry_of, accept, run,
}

-- No two entries could answer for one request: all request identities differ, and all pairs of an MCP
-- session and a sequence number.
abbrev pub IsDistinct : List Entry → Type 0
IsDistinct [] = Unit
IsDistinct (entry ∷ entries) = (exists (reuses entry.key) entries ≡ false) × IsDistinct entries

pub record IsValid (c : Cache) : Type 0 where
  pub positive : 0 < c.max
  pub within : length c.entries ≤ c.max
  pub distinct : IsDistinct c.entries

exists-unexpired :
    (key : EntryKey) (now ttl : ℕ) (entries : List Entry)
    → exists (reuses key) entries ≡ false
    → exists (reuses key) (unexpired now ttl entries) ≡ false
unfolding unexpired
exists-unexpired key now ttl [] h = refl
exists-unexpired key now ttl (entry ∷ entries) h =
    ground (arith, exists-unexpired key now ttl entries)

IsDistinct-unexpired :
    (now ttl : ℕ) (entries : List Entry)
    → IsDistinct entries
    → IsDistinct (unexpired now ttl entries)
unfolding unexpired
IsDistinct-unexpired now ttl [] h = tt
IsDistinct-unexpired now ttl (entry ∷ entries) h = ground (
  arith,
  IsDistinct-unexpired now ttl entries h.1,
  exists-unexpired entry.key now ttl entries h.0,
)

length-unexpired :
    (now ttl : ℕ) (entries : List Entry) → length (unexpired now ttl entries) ≤ length entries
unfolding unexpired
length-unexpired now ttl [] = omega arith
length-unexpired now ttl (entry ∷ entries) = ground (arith, length-unexpired now ttl entries)

exists-delete_key :
    (key gone : EntryKey) (entries : List Entry)
    → exists (reuses key) entries ≡ false
    → exists (reuses key) (delete_key gone entries) ≡ false
unfolding delete_key
exists-delete_key key gone [] h = refl
exists-delete_key key gone (entry ∷ entries) h = ground (arith, exists-delete_key key gone entries)

IsDistinct-delete_key :
    (gone : EntryKey) (entries : List Entry)
    → IsDistinct entries
    → IsDistinct (delete_key gone entries)
unfolding delete_key
IsDistinct-delete_key gone [] h = tt
IsDistinct-delete_key gone (entry ∷ entries) h =
    ground
      (arith, IsDistinct-delete_key gone entries h.1, exists-delete_key entry.key gone entries h.0)

length-delete_key-le :
    (gone : EntryKey) (entries : List Entry) → length (delete_key gone entries) ≤ length entries
unfolding delete_key
length-delete_key-le gone [] = omega arith
length-delete_key-le gone (entry ∷ entries) = ground (arith, length-delete_key-le gone entries)

abbrev HasKey : EntryKey → List Entry → Type 0
HasKey key = Any (λ entry. key_eq entry.key key ≡ true)

length-delete_key-lt :
    (gone : EntryKey) (entries : List Entry)
    → HasKey gone entries
    → length (delete_key gone entries) < length entries
unfolding delete_key
length-delete_key-lt gone [] h = elim h [ ]
length-delete_key-lt gone (entry ∷ entries) (inl h) =
    ground (arith, length-delete_key-le gone entries)
length-delete_key-lt gone (entry ∷ entries) (inr h) =
    ground (arith, length-delete_key-lt gone entries h)

key_eq_refl : (key : EntryKey) → key_eq key key ≡ true
unfolding key_eq
key_eq_refl key = ground (arith, bytes_eq_refl key.mcp_session, bytes_eq_refl key.request_id)

HasKey-skip :
    (key : EntryKey) (first entry : Entry) (entries : List Entry)
    → HasKey key (first ∷ entries)
    → HasKey key (first ∷ entry ∷ entries)
HasKey-skip key first entry entries (inl h) = inl h
HasKey-skip key first entry entries (inr h) = inr (inr h)

HasKey-pick :
    (older : Bool) (first entry : Entry) (entries : List Entry)
    → HasKey (oldest_from first entries).key (first ∷ entries)
    → HasKey (oldest_from entry entries).key (entry ∷ entries)
    → HasKey (oldest_from (if older then entry else first) entries).key (first ∷ entry ∷ entries)
HasKey-pick true first entry entries hf he = inr he
HasKey-pick false first entry entries hf he = HasKey-skip _ first entry entries hf

-- The oldest entry is one of them.
oldest-HasKey :
    (first : Entry) (entries : List Entry)
    → HasKey (oldest_from first entries).key (first ∷ entries)
unfolding oldest_from
oldest-HasKey first [] = inl (key_eq_refl first.key)
oldest-HasKey first (entry ∷ entries) =
    HasKey-pick (ltb entry.seen_at first.seen_at) first entry entries (oldest-HasKey first entries)
      (oldest-HasKey entry entries)

-- Eviction makes room for one entry.
length-evict_oldest :
    (entries : List Entry) → length (evict_oldest entries) + 1 ≤ length entries ⊎ (entries ≡ [])
unfolding evict_oldest
length-evict_oldest [] = inr refl
length-evict_oldest (entry ∷ entries) =
    inl (omega (arith, length-delete_key-lt _ (entry ∷ entries) (oldest-HasKey entry entries)))

IsDistinct-evict_oldest :
    (entries : List Entry) → IsDistinct entries → IsDistinct (evict_oldest entries)
unfolding evict_oldest
IsDistinct-evict_oldest [] h = tt
IsDistinct-evict_oldest (entry ∷ entries) h =
    IsDistinct-delete_key (oldest_from entry entries).key (entry ∷ entries) h

exists-evict_oldest :
    (key : EntryKey) (entries : List Entry)
    → exists (reuses key) entries ≡ false
    → exists (reuses key) (evict_oldest entries) ≡ false
unfolding evict_oldest
exists-evict_oldest key [] h = refl
exists-evict_oldest key (entry ∷ entries) h =
    exists-delete_key key (oldest_from entry entries).key (entry ∷ entries) h

-- Every call keeps a valid cache valid, whatever the call's result: never more entries than
-- the bound, and never two that share a request identity or a place in one MCP session.
pub accept-IsValid : (call : Call) (c : Cache) → IsValid c → IsValid (accept call c).1
unfolding accept entry_of
accept-IsValid call c v =
    let live = unexpired call.now c.ttl c.entries in
    let short = length-unexpired call.now c.ttl c.entries in
    let apart = IsDistinct-unexpired call.now c.ttl c.entries v.distinct in
    record {
      positive = ground (arith, v.positive);
      within = ground (arith, v.positive, v.within, short, length-evict_oldest live);
      distinct = ground (
        arith,
        v.distinct,
        apart,
        IsDistinct-evict_oldest live apart,
        exists-evict_oldest call.key live,
      );
    }

new_cache-IsValid : (max_entries ttl : ℕ) (c : Cache) → new_cache max_entries ttl ≡ ok c → IsValid c
unfolding new_cache
new_cache-IsValid max_entries ttl c h = record {
  positive = ground arith;
  within = ground arith;
  distinct = subst IsDistinct (empty_entries h) tt;
}
  where
    empty_entries : new_cache max_entries ttl ≡ ok c → [] ≡ c.entries
    empty_entries e = ground arith

-- A new cache, whatever calls it has answered, holds at most as many entries as its bound, and never two
-- that share a request identity or a place in one MCP session.
pub run-IsValid :
    (max_entries ttl : ℕ) (c : Cache) (calls : List Call)
    → new_cache max_entries ttl ≡ ok c
    → IsValid (run calls c)
run-IsValid max_entries ttl c calls h = go calls c (new_cache-IsValid max_entries ttl c h)
  where
    go : (calls : List Call) (c : Cache) → IsValid c → IsValid (run calls c)
    go [] c v = v
    go (call ∷ calls) c v = go calls (accept call c).1 (accept-IsValid call c v)

-- The entry that an accepted call leaves.
reuses_self : (call : Call) → reuses call.key (entry_of call) ≡ true
unfolding reuses entry_of
reuses_self call = ground (arith, bytes_eq_refl call.request_id)
