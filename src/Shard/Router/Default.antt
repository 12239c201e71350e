-- ===== src/Shard/Router/Default.antt =====
-- oxidedb/shard/router.py: where `default_range_map` puts a key, and what the router says of the
-- leader of its shard.
use oxide_db.Base.{
  ℕ, zero, suc, ◌+◌, ◌-◌, ◌*◌, ◌/◌, ◌≤◌, ◌<◌, ◌≡◌, refl, ◌∙◌, true, false, ◌&&◌, some, [], ◌∷◌, ltb,
  leb, ◌==◌, if◌then◌else◌, arith, inl, inr, Bool-cases,
}
use oxide_db.Base.Bytes.{Bytes, bytes_lt}
use oxide_db.Base.Dict.{get_key, get_key-set_key}
use oxide_db.Shard.Router.{
  ranges, default_range_map, in_range, locate, ShardRouter, ShardInfo, get_shard_id,
  get_leader_for_key, update_shard_leader,
}

-- the shard whose equal part of the bytes has `b`; the last one has what is left too
pub record Owner (num_shards chunk b shard : ℕ) : Type 0 where
  pub exists : shard < num_shards
  pub from : shard * chunk ≤ b
  pub to : shard + 1 < num_shards → b < (shard + 1) * chunk

in_range-byte :
    (b : ℕ) (rest : Bytes) (s e : ℕ) → in_range (b ∷ rest) (s ∷ [], e ∷ []) ≡ (leb s b && ltb b e)
unfolding bytes_lt
in_range-byte b rest s e = ground arith

locate-ranges :
    (n chunk b : ℕ) (rest : Bytes) (i left : ℕ)
    → i + suc left ≡ n
    → i * chunk ≤ b
    → b < 0xff
    → Owner n chunk b (locate (ranges n chunk i (suc left)) (b ∷ rest))
unfolding locate ranges
locate-ranges n chunk b rest i zero size low high =
    let last : ltb i (n - 1) ≡ false = ground arith in
    let here : in_range (b ∷ rest) (i * chunk ∷ [], 0xff ∷ []) ≡ true =
      in_range-byte b rest (i * chunk) 0xff ∙ ground arith in
    rw (last, here) (record { exists = omega arith; from = low; to = λ h. absurd (omega arith) })
locate-ranges n chunk b rest i (suc left) size low high =
    let more : ltb i (n - 1) ≡ true = ground arith in
    rw more (elim (Bool-cases (ltb b ((i + 1) * chunk))) [
      | inl within ↦
          let here : in_range (b ∷ rest) (i * chunk ∷ [], (i + 1) * chunk ∷ []) ≡ true =
            in_range-byte b rest (i * chunk) ((i + 1) * chunk) ∙ ground (arith, within) in
          rw here (record { exists = omega arith; from = low; to = λ h. ground (arith, within) })
      | inr past ↦
          let there : in_range (b ∷ rest) (i * chunk ∷ [], (i + 1) * chunk ∷ []) ≡ false =
            in_range-byte b rest (i * chunk) ((i + 1) * chunk) ∙ ground (arith, past) in
          rw there
            (locate-ranges n chunk b rest (i + 1) left (omega arith) (ground (arith, past)) high)
    ])

-- With at least two shards, a key that does not begin with 0xff goes to the shard whose equal part
-- of the first bytes has its first byte, the last shard taking what the parts leave over.
pub locate-default_range_map :
    (num_shards b : ℕ) (rest : Bytes)
    → 1 < num_shards
    → b < 0xff
    → Owner num_shards (256 / num_shards) b (locate (default_range_map num_shards) (b ∷ rest))
unfolding default_range_map
locate-default_range_map (suc n) b rest many high =
    let several : leb (suc n) 1 ≡ false = ground arith in
    rw several (locate-ranges (suc n) (256 / suc n) b rest 0 n (omega arith) (omega arith) high)
locate-default_range_map zero b rest many high = absurd (omega arith)

module _ {A : Type 0} where
  -- After `update_shard_leader` for a shard that was added, every key of that shard has the new
  -- leader, and every key of another shard the one it had.
  get_leader_for_key-update :
      (shard_id leader_id : ℕ) (key : Bytes) (s : ShardInfo) (r : ShardRouter A)
      → get_key shard_id r.shard_map ≡ some s
      → get_leader_for_key key (update_shard_leader shard_id leader_id r)
        ≡ (if get_shard_id key r == shard_id then some leader_id else get_leader_for_key key r)
  unfolding get_leader_for_key update_shard_leader get_shard_id
  get_leader_for_key-update shard_id leader_id key s r h =
      let stored =
        get_key-set_key shard_id (locate r.range_map key) (record s { leader_id = some leader_id })
          r.shard_map in
      rw h (elim (Bool-cases (locate r.range_map key == shard_id)) [
        | inl eq ↦ rw (stored, eq) refl
        | inr eq ↦ rw (stored, eq) refl
      ])
