-- ===== src/Sharding/ConfigServer/Integrity.antt =====
-- The chunks of pkg/sharding/config_server.go are on shards that are registered.
use laura_db.Prelude.{
  ◌≡◌, ◌≢◌, inl, inr, refl, sym, subst, Bool, true, false, some, List, [], ◌∷◌, any, if_pos, arith,
  Bool-cases, Option-cases,
}
use laura_db.Prelude.Assoc.{
  Assoc, get, put, delete, has, get-put, get-delete, any_of_get, put-every,
}
use laura_db.Sharding.ConfigServer.{
  ShardMetadata, ChunkMetadata, Metadata, ConfigServer, save, register_shard, unregister_shard,
  is_on, update_shard, update_shard_state, update_shard_tags, register_chunk, unregister_chunk,
  update_chunk, move_chunk, new_config_server, Call, registers_shard, unregisters_shard,
  updates_state, updates_tags, registers_chunk, unregisters_chunk, updates_chunk, moves_chunk, step,
  run,
}

module _ {S K : Type 0} (dec : Discrete S) where
  -- The shard of every chunk is registered.
  abbrev pub Registered : Assoc S (ShardMetadata S K) → Assoc S (ChunkMetadata S K) → Type 0
  Registered shards chunks =
      (id : S) (chunk : ChunkMetadata S K)
      → get dec id chunks ≡ some chunk
      → has dec chunk.shard_id shards ≡ true

  -- That holds of the registries and of those in the file.
  pub record Sound (cs : ConfigServer S K) : Type 0 where
    pub registered : Registered cs.current.shards cs.current.chunks
    pub saved : (m : Metadata S K) → cs.file ≡ some m → Registered m.shards m.chunks

  some_injective : {m n : Metadata S K} → some m ≡ some n → m ≡ n
  some_injective e = cc

  save-Sound :
      (w : Bool) (m : Metadata S K) (cs : ConfigServer S K)
      → Registered m.shards m.chunks
      → Sound cs
      → Sound (save dec w m cs).0
  unfolding save
  save-Sound true m cs r s = record {
    registered = r;
    saved = λ n e. subst (λ x. Registered x.shards x.chunks) (some_injective e) r;
  }
  save-Sound false m cs r s = record { registered = r; saved = s.saved }

  has-put :
      (k j : S) (v : ShardMetadata S K) (m : Assoc S (ShardMetadata S K))
      → has dec j m ≡ true
      → has dec j (put dec k v m) ≡ true
  unfolding has
  has-put k j v m h = elim (dec k j) [
    | yes p ↦
        let e : get dec j (put dec k v m) ≡ some v = ground (arith, get-put dec k j v m) in
        rw (e, has) refl
    | no p ↦
        let e : get dec j (put dec k v m) ≡ get dec j m = ground (arith, get-put dec k j v m) in
        rw (e, has) h
  ]

  has-delete :
      (k j : S) (m : Assoc S (ShardMetadata S K))
      → k ≢ j
      → has dec j m ≡ true
      → has dec j (delete dec k m) ≡ true
  unfolding has
  has-delete k j m n h =
      let e : get dec j (delete dec k m) ≡ get dec j m = ground (arith, get-delete dec k j m) in
      rw (e, has) h

  module _ (shards : Assoc S (ShardMetadata S K)) (chunks : Assoc S (ChunkMetadata S K))
      (r : Registered shards chunks) where
    put_shard-Registered : (k : S) (v : ShardMetadata S K) → Registered (put dec k v shards) chunks
    put_shard-Registered k v id c e = has-put k c.shard_id v shards (r id c e)

    put_chunk-Registered :
        (k : S) (c : ChunkMetadata S K)
        → has dec c.shard_id shards ≡ true
        → Registered shards (put dec k c chunks)
    put_chunk-Registered k c h =
        put-every dec (λ j d. has dec d.shard_id shards ≡ true) k c chunks h r

    delete_chunk-Registered : (k : S) → Registered shards (delete dec k chunks)
    delete_chunk-Registered k id c e = r id c (elim (dec k id) [
      | yes p ↦ ground (arith, get-delete dec k id chunks)
      | no p ↦ ground (arith, get-delete dec k id chunks)
    ])

    delete_shard-Registered :
        (k : S) → any (is_on dec k) chunks ≡ false → Registered (delete dec k shards) chunks
    unfolding is_on
    delete_shard-Registered k h id c e = elim (dec c.shard_id k) [
      | yes p ↦
          let on =
            any_of_get dec (is_on dec k) id c chunks e (if_pos (dec c.shard_id k) p true false) in
          absurd (ground (arith, on, h))
      | no p ↦ has-delete k c.shard_id shards (λ q. p (sym q)) (r id c e)
    ]

  update_shard-Sound :
      (change : ShardMetadata S K → ShardMetadata S K) (w : Bool) (id : S) (cs : ConfigServer S K)
      → Sound cs
      → Sound (update_shard dec change w id cs).0
  unfolding update_shard
  update_shard-Sound change w id cs s = elim (Option-cases (get dec id cs.current.shards)) [
    | inl h ↦ rw (h, update_shard) s
    | inr (shard, h) ↦
        rw (h, update_shard)
          (save-Sound w _ cs
            (put_shard-Registered cs.current.shards cs.current.chunks s.registered id _) s)
  ]

  step-Sound : (call : Call S K) (cs : ConfigServer S K) → Sound cs → Sound (step dec call cs).0
  unfolding step register_shard unregister_shard update_shard_state update_shard_tags register_chunk
      unregister_chunk update_chunk move_chunk
  step-Sound (registers_shard w now id host tags) cs s =
      elim (Bool-cases (has dec id cs.current.shards)) [
        | inl h ↦ rw h s
        | inr h ↦ rw h (
            save-Sound w _ cs
              (put_shard-Registered cs.current.shards cs.current.chunks s.registered id _) s)
      ]
  step-Sound (unregisters_shard w id) cs s = elim (Bool-cases (has dec id cs.current.shards)) [
    | inr h ↦ rw h s
    | inl h ↦ elim (Bool-cases (any (is_on dec id) cs.current.chunks)) [
      | inl o ↦ rw (h, o) s
      | inr o ↦
          rw (h, o)
            (save-Sound w _ cs
              (delete_shard-Registered cs.current.shards cs.current.chunks s.registered id o) s)
    ]
  ]
  step-Sound (updates_state w now id state) cs s = update_shard-Sound _ w id cs s
  step-Sound (updates_tags w now id tags) cs s = update_shard-Sound _ w id cs s
  step-Sound (registers_chunk w now id chunk) cs s =
      elim (Bool-cases (has dec id cs.current.chunks)) [
        | inl h ↦ rw h s
        | inr h ↦ elim (Bool-cases (has dec chunk.shard_id cs.current.shards)) [
          | inl o ↦
              rw (h, o)
                (save-Sound w _ cs
                  (put_chunk-Registered cs.current.shards cs.current.chunks s.registered id _ o) s)
          | inr o ↦ rw (h, o) s
        ]
      ]
  step-Sound (unregisters_chunk w id) cs s = elim (Bool-cases (has dec id cs.current.chunks)) [
    | inr h ↦ rw h s
    | inl h ↦ rw h (
        save-Sound w _ cs
          (delete_chunk-Registered cs.current.shards cs.current.chunks s.registered id) s)
  ]
  step-Sound (updates_chunk w now id count size) cs s =
      elim (Option-cases (get dec id cs.current.chunks)) [
        | inl h ↦ rw (h, step, update_chunk) s
        | inr (chunk, h) ↦
            rw (h, step, update_chunk)
              (save-Sound w _ cs
                (put_chunk-Registered cs.current.shards cs.current.chunks s.registered id _
                  (s.registered id chunk h))
                s)
      ]
  step-Sound (moves_chunk w now id target) cs s =
      elim (Option-cases (get dec id cs.current.chunks)) [
        | inl h ↦ rw (h, step, move_chunk) s
        | inr (chunk, h) ↦ elim (Bool-cases (has dec target cs.current.shards)) [
          | inl o ↦
              rw (h, o, step, move_chunk)
                (save-Sound w _ cs
                  (put_chunk-Registered cs.current.shards cs.current.chunks s.registered id _ o) s)
          | inr o ↦ rw (h, o, step, move_chunk) s
        ]
      ]

  run-Sound :
      (calls : List (Call S K)) (cs : ConfigServer S K) → Sound cs → Sound (run dec calls cs)
  unfolding run
  run-Sound [] cs s = s
  run-Sound (c ∷ calls) cs s = run-Sound calls (step dec c cs).0 (step-Sound c cs s)

  -- After any calls on a new config server, whether the file could be written or not, the shard of
  -- every chunk is registered, in memory and in the file.
  pub run-new-Sound : (calls : List (Call S K)) → Sound (run dec calls new_config_server)
  unfolding new_config_server get
  run-new-Sound calls =
      run-Sound calls new_config_server (record { registered = λ id c e. cc; saved = λ m e. cc })
