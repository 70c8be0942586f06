-- ===== src/ApiKeys.antt =====
-- packages/db/src/repositories/api-keys.ts: the named API keys of users. `now` is the clock of the
-- process, `db_now` that of the database. A token is given with its prefix: it is random. The statements
-- of a minting run one minting of a user after another, behind the lock of the user's row, and the
-- user exists. Of the two unique indexes that on the hash is the older, and is asked first.
pub mod Calls
pub mod Cap
pub mod Revoked
pub mod Minting
pub mod Tokens
pub mod Listing
pub mod Tests
use ai.Common.{
  ℕ, suc, ◌≡◌, String, str_eq, Bool, true, false, ◌&&◌, not, Option, none, some, List, [], ◌∷◌,
  ◌++◌, map, if◌then◌else◌, any, count, keep, ltb, leb, ◌==◌,
}
use ai.Common.Sort.{sort_by}

pub record ApiKey : Type 0 where
  pub id : ℕ
  pub user_id : String
  pub name : String
  pub token_hash : String
  pub role : Option String
  pub last_used_at : Option ℕ
  pub expires_at : Option ℕ
  pub revoked_at : Option ℕ
  pub created_at : ℕ

-- The table, and the next id that its default value gives.
pub record ApiKeys : Type 0 where
  pub keys : List ApiKey
  pub next_id : ℕ

-- The columns that leave the server: no hash among them.
pub record ApiKeyRow : Type 0 where
  pub id : ℕ
  pub name : String
  pub role : Option String
  pub last_used_at : Option ℕ
  pub expires_at : Option ℕ
  pub created_at : ℕ

pub record KeyOptions : Type 0 where
  pub name : String
  pub role : Option String
  pub expires_at : Option ℕ

abbrev pub api_key_row : ApiKey → ApiKeyRow
api_key_row k = record {
  id = k.id;
  name = k.name;
  role = k.role;
  last_used_at = k.last_used_at;
  expires_at = k.expires_at;
  created_at = k.created_at;
}

abbrev pub is_unrevoked : Option ℕ → Bool
is_unrevoked none = true
is_unrevoked (some t) = false

-- `or(isNull(expiresAt), gt(expiresAt, now))`.
abbrev pub unexpired : ℕ → Option ℕ → Bool
unexpired now none = true
unexpired now (some t) = ltb now t

abbrev pub is_live : ℕ → ApiKey → Bool
is_live now k = is_unrevoked k.revoked_at && unexpired now k.expires_at

abbrev pub is_live_of : ℕ → String → ApiKey → Bool
is_live_of now user_id k = str_eq k.user_id user_id && is_live now k

-- The partial unique index `api_keys_user_live_name`.
abbrev pub holds_name : String → String → ApiKey → Bool
holds_name user_id name k =
    str_eq k.user_id user_id && (str_eq k.name name && is_unrevoked k.revoked_at)

abbrev pub has_hash : String → ApiKey → Bool
has_hash hash k = str_eq k.token_hash hash

pub data Constraint : Type 0 where
  token_hash_unique user_live_name : Constraint

pub data Created : Type 0 where
  created : ApiKeys → ApiKeyRow → Created
  violates : Constraint → Created

pub data MintRefusal : Type 0 where
  at_capacity duplicate_name : MintRefusal

pub data MintResult : Type 0 where
  minted : ApiKeyRow → String → MintResult
  refused : MintRefusal → MintResult
  throws : MintResult

pub record Found : Type 0 where
  pub id : ℕ
  pub user_id : String
  pub role : Option String

abbrev pub found_of : ApiKey → Found
found_of k = record { id = k.id; user_id = k.user_id; role = k.role }

-- `gt(now(), expiresAt)` is null for a key that never expires.
abbrev pub is_past : ℕ → Option ℕ → Bool
is_past db_now none = false
is_past db_now (some t) = ltb t db_now

unfoldable pub count_live_api_keys : ApiKeys → String → ℕ → ℕ
count_live_api_keys t user_id now = count (is_live_of now user_id) t.keys

abbrev pub stamp_revoked : ℕ → ApiKey → ApiKey
stamp_revoked now k = record k { revoked_at = some now }

abbrev pub reclaim : String → String → ℕ → ℕ → ApiKey → ApiKey
reclaim user_id name now db_now k =
    if holds_name user_id name k && is_past db_now k.expires_at then stamp_revoked now k else k

abbrev pub reclaimed : ApiKeys → String → String → ℕ → ℕ → ApiKeys
reclaimed t user_id name now db_now = record t {
  keys = map (reclaim user_id name now db_now) t.keys;
}

unfoldable pub find_key : (ApiKey → Bool) → List ApiKey → Option ApiKey
find_key p [] = none
find_key p (k ∷ keys) = if p k then some k else find_key p keys

abbrev pub found : Option ApiKey → Option Found
found none = none
found (some k) = some (found_of k)

-- The rows after an UPDATE, and how many it matched.
abbrev pub update_keys : (ApiKey → Bool) → (ApiKey → ApiKey) → ApiKeys → ApiKeys
update_keys p f t = record t { keys = map (λ k. if p k then f k else k) t.keys }

abbrev pub is_revocable : String → ℕ → ApiKey → Bool
is_revocable user_id id k = (k.id == id) && (str_eq k.user_id user_id && is_unrevoked k.revoked_at)

abbrev pub is_revocable_of : String → ApiKey → Bool
is_revocable_of user_id k = str_eq k.user_id user_id && is_unrevoked k.revoked_at

unfoldable pub revoke_api_key : ApiKeys → String → ℕ → ℕ → ApiKeys × Bool
revoke_api_key t user_id id now = (
  update_keys (is_revocable user_id id) (stamp_revoked now) t,
  any (is_revocable user_id id) t.keys,
)

unfoldable pub revoke_all_api_keys : ApiKeys → String → ℕ → ApiKeys × ℕ
revoke_all_api_keys t user_id now = (
  update_keys (is_revocable_of user_id) (stamp_revoked now) t,
  count (is_revocable_of user_id) t.keys,
)

unfoldable pub touch_api_key_last_used : ApiKeys → ℕ → ℕ → ApiKeys
touch_api_key_last_used t id now =
    update_keys (λ k. k.id == id) (λ k. record k { last_used_at = some now }) t

unfoldable pub is_api_key_live : ApiKeys → ℕ → ℕ → Bool
is_api_key_live t id now = any (λ k. (k.id == id) && is_live now k) t.keys

-- Newest first.
unfoldable pub list_api_keys : ApiKeys → String → ℕ → List ApiKeyRow
list_api_keys t user_id now =
    map api_key_row
      (sort_by (λ a b. leb b.created_at a.created_at) (keep (is_live_of now user_id) t.keys))

module _ (hash_token : String → String) where
  abbrev pub new_key : ℕ → String → KeyOptions → String → ℕ → ApiKey
  new_key id user_id opts token db_now = record {
    id = id;
    user_id = user_id;
    name = opts.name;
    token_hash = hash_token token;
    role = opts.role;
    last_used_at = none;
    expires_at = opts.expires_at;
    revoked_at = none;
    created_at = db_now;
  }

  abbrev pub with_key : ApiKeys → ApiKey → ApiKeys
  with_key t k = record { keys = t.keys ++ k ∷ []; next_id = suc t.next_id }

  unfoldable pub create_api_key : ApiKeys → String → KeyOptions → String → ℕ → Created
  create_api_key t user_id opts token db_now =
      if any (has_hash (hash_token token)) t.keys
      then violates token_hash_unique
      else if any (holds_name user_id opts.name) t.keys
      then violates user_live_name
      else created (with_key t (new_key t.next_id user_id opts token db_now))
          (api_key_row (new_key t.next_id user_id opts token db_now))

  -- A statement that fails aborts its transaction: the table is left as it was.
  abbrev pub minting : ApiKeys → String → Created → ApiKeys × MintResult
  minting t token (created after row) = (after, minted row token)
  minting t token (violates token_hash_unique) = (t, throws)
  minting t token (violates user_live_name) = (t, refused duplicate_name)

  unfoldable pub mint_api_key :
      ApiKeys → String → KeyOptions → String → ℕ → ℕ → ℕ → ApiKeys × MintResult
  unfolding count_live_api_keys create_api_key
  mint_api_key t user_id opts token max_per_user now db_now =
      if leb max_per_user (count_live_api_keys t user_id now)
      then (t, refused at_capacity)
      else minting t token
          (create_api_key (reclaimed t user_id opts.name now db_now) user_id opts token db_now)

  unfoldable pub find_live_api_key : ApiKeys → String → ℕ → Option Found
  unfolding find_key
  find_live_api_key t token now =
      found (find_key (λ k. has_hash (hash_token token) k && is_live now k) t.keys)
