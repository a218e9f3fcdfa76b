-- ===== src/Sharding/ConfigServer.antt =====
-- pkg/sharding/config_server.go: the registries of shards and chunks of the config server.
-- Identifiers are of a type with a decidable equality, the keys of chunks of any type. The
-- configurations of collections are left out. A call that saves the metadata takes whether the file
-- can be written; the file holds what was saved last. The lock makes each call atomic, and counters
-- of type int64 do not reach their end.
pub mod Integrity
mod Tests
use laura_db.Prelude.{
  ℕ, suc, Bool, true, false, Option, none, some, List, [], ◌∷◌, if◌then◌else◌, any, ite,
}
use laura_db.Prelude.Assoc
use laura_db.Prelude.Assoc.{Assoc, get, put, delete, has}

pub data ShardState : Type 0 where
  active draining inactive unreachable : ShardState

pub data ConfigError : Type 0 where
  shard_already_registered : ConfigError
  shard_not_found : ConfigError
  shard_has_chunks : ConfigError
  chunk_already_registered : ConfigError
  chunk_not_found : ConfigError
  not_saved : ConfigError

pub data Outcome : Type 0 where
  done : Outcome
  failed : ConfigError → Outcome

module _ (S K : Type 0) where
  pub record ShardMetadata : Type 0 where
    pub host : S
    pub tags : Assoc S S
    pub state : ShardState
    pub added_at : ℕ
    pub updated_at : ℕ

  pub record ChunkMetadata : Type 0 where
    pub shard_id : S
    pub min_key : K
    pub max_key : K
    pub count : ℕ
    pub size : ℕ
    pub version : ℕ
    pub updated_at : ℕ

  pub record Metadata : Type 0 where
    pub shards : Assoc S ShardMetadata
    pub chunks : Assoc S ChunkMetadata
    pub version : ℕ

  pub record ConfigServer : Type 0 where
    pub current : Metadata
    pub file : Option Metadata

module _ {S K : Type 0} (dec : Discrete S) where
  -- `cs.version++` and `persistMetadata`
  unfoldable pub save : Bool → Metadata S K → ConfigServer S K → ConfigServer S K × Outcome
  save writable meta cs =
      let meta = record meta { version = suc meta.version } in
      if writable
      then (record { current = meta; file = some meta }, done)
      else (record cs { current = meta }, failed not_saved)

  unfoldable pub register_shard :
      Bool → ℕ → S → S → Assoc S S → ConfigServer S K → ConfigServer S K × Outcome
  register_shard writable now id host tags cs =
      let meta = cs.current in
      if has dec id meta.shards
      then (cs, failed shard_already_registered)
      else save writable
          (record meta {
            shards =
                put dec id
                  (record {
                    host = host;
                    tags = tags;
                    state = active;
                    added_at = now;
                    updated_at = now;
                  })
                  meta.shards;
          })
          cs

  unfoldable pub is_on : S → S × ChunkMetadata S K → Bool
  is_on id (name, chunk) = ite (dec chunk.shard_id id) true false

  unfoldable pub unregister_shard : Bool → S → ConfigServer S K → ConfigServer S K × Outcome
  unregister_shard writable id cs =
      let meta = cs.current in
      if has dec id meta.shards
      then (if any (is_on id) meta.chunks
          then (cs, failed shard_has_chunks)
          else save writable (record meta { shards = delete dec id meta.shards }) cs)
      else (cs, failed shard_not_found)

  -- UpdateShardState and UpdateShardTags: a change of a shard that is there
  unfoldable pub update_shard :
      (ShardMetadata S K → ShardMetadata S K)
      → Bool
      → S
      → ConfigServer S K
      → ConfigServer S K × Outcome
  update_shard change writable id cs =
      let meta = cs.current in
      elim (get dec id meta.shards) [
        | none ↦ (cs, failed shard_not_found)
        | some shard ↦
            save writable (record meta { shards = put dec id (change shard) meta.shards }) cs
      ]

  unfoldable pub update_shard_state :
      Bool → ℕ → S → ShardState → ConfigServer S K → ConfigServer S K × Outcome
  update_shard_state writable now id state =
      update_shard (λ shard. record shard { state = state; updated_at = now }) writable id

  unfoldable pub update_shard_tags :
      Bool → ℕ → S → Assoc S S → ConfigServer S K → ConfigServer S K × Outcome
  update_shard_tags writable now id tags =
      update_shard (λ shard. record shard { tags = tags; updated_at = now }) writable id

  unfoldable pub register_chunk :
      Bool → ℕ → S → ChunkMetadata S K → ConfigServer S K → ConfigServer S K × Outcome
  register_chunk writable now id chunk cs =
      let meta = cs.current in
      if has dec id meta.chunks
      then (cs, failed chunk_already_registered)
      else if has dec chunk.shard_id meta.shards
      then save writable
          (record meta {
            chunks = put dec id (record chunk { version = 1; updated_at = now }) meta.chunks;
          })
          cs
      else (cs, failed shard_not_found)

  unfoldable pub unregister_chunk : Bool → S → ConfigServer S K → ConfigServer S K × Outcome
  unregister_chunk writable id cs =
      let meta = cs.current in
      if has dec id meta.chunks
      then save writable (record meta { chunks = delete dec id meta.chunks }) cs
      else (cs, failed chunk_not_found)

  unfoldable pub update_chunk : Bool → ℕ → S → ℕ → ℕ → ConfigServer S K → ConfigServer S K × Outcome
  update_chunk writable now id count size cs =
      let meta = cs.current in
      elim (get dec id meta.chunks) [
        | none ↦ (cs, failed chunk_not_found)
        | some chunk ↦
            save writable
              (record meta {
                chunks =
                    put dec id (record chunk { count = count; size = size; updated_at = now })
                      meta.chunks;
              })
              cs
      ]

  unfoldable pub move_chunk : Bool → ℕ → S → S → ConfigServer S K → ConfigServer S K × Outcome
  move_chunk writable now id target cs =
      let meta = cs.current in
      elim (get dec id meta.chunks) [
        | none ↦ (cs, failed chunk_not_found)
        | some chunk ↦
            if has dec target meta.shards
            then save writable
                (record meta {
                  chunks =
                      put dec id
                        (record chunk {
                          shard_id = target;
                          version = suc chunk.version;
                          updated_at = now;
                        })
                        meta.chunks;
                })
                cs
            else (cs, failed shard_not_found)
      ]

-- A config server without a file
unfoldable pub new_config_server : {S K : Type 0} → ConfigServer S K
new_config_server = record {
  current = record { shards = []; chunks = []; version = 1 };
  file = none;
}

-- The calls that change the registries; the Boolean of each tells whether the file can be written.
pub data Call (S K : Type 0) : Type 0 where
  registers_shard : Bool → ℕ → S → S → Assoc S S → Call S K
  unregisters_shard : Bool → S → Call S K
  updates_state : Bool → ℕ → S → ShardState → Call S K
  updates_tags : Bool → ℕ → S → Assoc S S → Call S K
  registers_chunk : Bool → ℕ → S → ChunkMetadata S K → Call S K
  unregisters_chunk : Bool → S → Call S K
  updates_chunk : Bool → ℕ → S → ℕ → ℕ → Call S K
  moves_chunk : Bool → ℕ → S → S → Call S K

module _ {S K : Type 0} (dec : Discrete S) where
  unfoldable pub step : Call S K → ConfigServer S K → ConfigServer S K × Outcome
  step (registers_shard w now id host tags) = register_shard dec w now id host tags
  step (unregisters_shard w id) = unregister_shard dec w id
  step (updates_state w now id state) = update_shard_state dec w now id state
  step (updates_tags w now id tags) = update_shard_tags dec w now id tags
  step (registers_chunk w now id chunk) = register_chunk dec w now id chunk
  step (unregisters_chunk w id) = unregister_chunk dec w id
  step (updates_chunk w now id count size) = update_chunk dec w now id count size
  step (moves_chunk w now id target) = move_chunk dec w now id target

  unfoldable pub run : List (Call S K) → ConfigServer S K → ConfigServer S K
  run [] cs = cs
  run (c ∷ calls) cs = run calls (step c cs).0
