-- ===== src/ApiKeys/Tests.antt =====
-- A user with a key that has expired, and a capacity of two.
use ai.Common.{
  ℕ, ◌≤◌, ◌≡◌, refl, String, none, some, List, [], ◌∷◌, if◌then◌else◌, any, leb, arith, str_eq,
}
use ai.ApiKeys.{
  ApiKeys, ApiKeyRow, KeyOptions, api_key_row, has_hash, count_live_api_keys, create_api_key,
  find_key, mint_api_key, revoke_all_api_keys, find_live_api_key, unexpired, new_key, minted,
  refused, throws, at_capacity, duplicate_name,
}
use ai.ApiKeys.Calls.{Call, mints, touches, step, run}
use ai.ApiKeys.Cap.{run_capped}
use ai.ApiKeys.Revoked.{revoke_all_api_keys-find_live_api_key}
use ai.ApiKeys.Minting.{blocks, mint_api_key_result}
use ai.ApiKeys.Tokens.{mint_api_key-find_live_api_key}

abbrev hash : String → String
hash token = token

abbrev options : KeyOptions
options = record { name = "desktop"; role = none; expires_at = some 50 }

abbrev table : ApiKeys
table = record { keys = new_key hash 0 "u" options "t0" 1 ∷ []; next_id = 1 }

abbrev calls : List (ℕ × Call)
calls = (60, mints "u" options "t1" 60) ∷ (70, touches 1) ∷ []

abbrev second : ApiKeyRow
second = api_key_row (new_key hash 1 "u" options "t1" 60)

-- The name is taken while the key is live, and free after its end.
taken : (mint_api_key hash table "u" options "t1" 2 40 40).1 ≡ refused duplicate_name
unfolding mint_api_key count_live_api_keys create_api_key
taken = refl

free : (mint_api_key hash table "u" options "t1" 2 60 60).1 ≡ minted second "t1"
unfolding mint_api_key count_live_api_keys create_api_key
free = refl

few : count_live_api_keys table "u" 10 ≤ 2
unfolding count_live_api_keys
few = omega arith

run_capped_example : count_live_api_keys (run hash 2 table calls) "u" 80 ≤ 2
run_capped_example =
    run_capped hash 2 calls table 10 80 "u" (omega arith, (omega arith, omega arith)) few

abbrev lasting : KeyOptions
lasting = record { name = "desktop"; role = none; expires_at = none }

abbrev again : List (ℕ × Call)
again = (20, mints "u" lasting "t1" 20) ∷ []

found_again :
    find_live_api_key hash (run hash 2 (revoke_all_api_keys table "u" 15).0 again) "t1" 30
    ≡ some (record { id = 1; user_id = "u"; role = none })
unfolding find_live_api_key find_key step mint_api_key count_live_api_keys create_api_key
    revoke_all_api_keys
found_again = refl

revoke_all_api_keys-find_live_api_key_example : 1 ≤ 1
revoke_all_api_keys-find_live_api_key_example =
    revoke_all_api_keys-find_live_api_key hash 2 table "u" 15 again "t1" 30
      (record { id = 1; user_id = "u"; role = none }) found_again refl

mint_api_key_result_example : (mint_api_key hash table "u" options "t1" 2 60 60).1 ≡ (
    if leb 2 (count_live_api_keys table "u" 60)
    then refused at_capacity
    else if any (has_hash "t1") table.keys
    then throws
    else if any (blocks "u" "desktop" 60) table.keys
    then refused duplicate_name
    else minted second "t1")
mint_api_key_result_example = mint_api_key_result hash table "u" options "t1" 2 60 60

answered :
    (mint_api_key hash table "u" lasting "t1" 2 60 60).1
    ≡ minted (api_key_row (new_key hash 1 "u" lasting "t1" 60)) "t1"
unfolding mint_api_key count_live_api_keys create_api_key
answered = refl

mint_api_key-find_live_api_key_example :
    find_live_api_key hash (mint_api_key hash table "u" lasting "t1" 2 60 60).0 "t1" 65 ≡ (
      if str_eq "t1" "t1"
      then if unexpired 65 none then some (record { id = 1; user_id = "u"; role = none }) else none
      else find_live_api_key hash table "t1" 65)
mint_api_key-find_live_api_key_example =
    mint_api_key-find_live_api_key hash table "u" lasting "t1" 2 60 60
      (api_key_row (new_key hash 1 "u" lasting "t1" 60)) "t1" 65 answered (omega arith)
