-- ===== src/ApiKeys/Calls.antt =====
-- The calls of the routes on the keys of packages/db/src/repositories/api-keys.ts, one after another.
use ai.Common.{ℕ, String, List, [], ◌∷◌}
use ai.ApiKeys.{
  ApiKeys, KeyOptions, mint_api_key, revoke_api_key, revoke_all_api_keys, touch_api_key_last_used,
}

pub data Call : Type 0 where
  mints : String → KeyOptions → String → ℕ → Call
  revokes : String → ℕ → Call
  revokes_all : String → Call
  touches : ℕ → Call

module _ (hash_token : String → String) (max_per_user : ℕ) where
  unfoldable pub step : ApiKeys → ℕ → Call → ApiKeys
  unfolding mint_api_key revoke_api_key revoke_all_api_keys touch_api_key_last_used
  step t now (mints user_id opts token db_now) =
      (mint_api_key hash_token t user_id opts token max_per_user now db_now).0
  step t now (revokes user_id id) = (revoke_api_key t user_id id now).0
  step t now (revokes_all user_id) = (revoke_all_api_keys t user_id now).0
  step t now (touches id) = touch_api_key_last_used t id now

  abbrev pub run : ApiKeys → List (ℕ × Call) → ApiKeys
  run t [] = t
  run t ((now, c) ∷ cs) = run (step t now c) cs
