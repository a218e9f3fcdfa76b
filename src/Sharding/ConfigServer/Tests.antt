-- ===== src/Sharding/ConfigServer/Tests.antt =====
-- Runs of the config server of pkg/sharding.
use laura_db.Prelude.{ℕ, ◌≡◌, refl, true, false, List, [], ◌∷◌, ℕ_discrete}
use laura_db.Prelude.Assoc.{get, has}
use laura_db.Sharding.ConfigServer.{
  new_config_server, Call, registers_shard, registers_chunk, moves_chunk, unregisters_shard, run,
  step, failed, shard_not_found, unregister_shard,
}
use laura_db.Sharding.ConfigServer.Integrity.{Sound, run-new-Sound}

abbrev calls : List (Call ℕ ℕ)
calls =
    registers_shard true 10 1 100 []
    ∷ registers_shard false 11 2 200 []
    ∷ registers_chunk true 12 7 (record {
      shard_id = 1;
      min_key = 0;
      max_key = 50;
      count = 0;
      size = 0;
      version = 0;
      updated_at = 0;
    })
    ∷ moves_chunk true 13 7 2
    ∷ unregisters_shard true 1
    ∷ []

-- A shard that is not there is refused.
refused_test :
    (step ℕ_discrete (unregisters_shard true 1) (run {K = ℕ} ℕ_discrete [] new_config_server)).1
    ≡ failed shard_not_found
unfolding step unregister_shard has get run new_config_server
refused_test = refl

run-new-Sound_example : Sound ℕ_discrete (run ℕ_discrete calls new_config_server)
run-new-Sound_example = run-new-Sound ℕ_discrete calls
