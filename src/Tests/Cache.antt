-- ===== src/Tests/Cache.antt =====
-- A cache on node 3 of a table with one shard, whose leader has no handle.
use oxide_db.Base.{ℕ, ◌+◌, ◌≡◌, refl, ◌⊎◌, none, some, [], ◌∷◌, ◌==◌, if◌then◌else◌}
use oxide_db.Base.Dict.{get_key}
use oxide_db.Base.Bytes.{bytes_eq}
use oxide_db.Metadata.Table.{RoutingTable, ShardPlacement}
use oxide_db.Metadata.Cache.{
  Env, Cache, table, client_for, leader_for_shard, replica_addresses, any_replica_for,
}
use oxide_db.Metadata.Cache.Addresses.{ListsShard, replica_addresses-ListsShard}
use oxide_db.Metadata.Cache.Reads.{counting, reads, Kept, IsDue, ReadOnce, leader_for_shard-reads}
use oxide_db.Metadata.Cache.Members.{FromShard, any_replica_for-FromShard}

-- the members 2, 1 and 3, of which 2 leads and 1 has its address
abbrev members : ShardPlacement
members = record {
  shard_id = 5;
  start = [];
  end = 255 ∷ [];
  nodes = 1 ∷ 2 ∷ 3 ∷ [];
  addresses = (1, 71 ∷ []) ∷ (2, 71 ∷ []) ∷ (3, 73 ∷ []) ∷ [];
  leader_id = some 2;
  leader_term = 4;
}

abbrev one_shard : RoutingTable
one_shard = record { version = 1; shards = (5, members) ∷ [] }

-- the world is the clock
abbrev clock : Env ℕ ℕ
clock = record {
  read_table = λ w. (some one_shard, w);
  get_client = λ s n a w. (if n == 2 then none else some n, w);
  forget_client = λ s n w. w;
  monotonic = λ w. (w, w + 1);
  shuffle = λ l w. (l, w);
}

abbrev fresh : Cache ℕ
fresh = record {
  local_node_id = some 3;
  missing_leader_refresh_interval = 5;
  last_read = 0;
  held = none;
  refreshes = 0;
  world = 100;
}

abbrev old : Cache ℕ
old = record fresh { held = some one_shard }

-- an address that two nodes have is listed once
listed_once : (replica_addresses clock 5 fresh).0 ≡ some ((71 ∷ []) ∷ (73 ∷ []) ∷ [])
unfolding replica_addresses bytes_eq
listed_once = refl

served_here : (any_replica_for clock 5 fresh).0 ≡ some (some 3)
unfolding any_replica_for
served_here = refl

-- a table that was just read is not read again, an old one is
not_again : (leader_for_shard clock 5 fresh).1.refreshes ≡ 0
unfolding leader_for_shard
not_again = refl

again : (leader_for_shard clock 5 old).1.refreshes ≡ 1
unfolding leader_for_shard
again = refl

replica_addresses-ListsShard_example : ListsShard (some members) (replica_addresses clock 5 old).0
unfolding get_key table
replica_addresses-ListsShard_example = replica_addresses-ListsShard clock 5 one_shard old refl

-- the same cache with a count of its readings
abbrev counted : Cache (ℕ × ℕ)
counted = record {
  local_node_id = some 3;
  missing_leader_refresh_interval = 5;
  last_read = 0;
  held = some one_shard;
  refreshes = 0;
  world = (0, 100);
}

read_once : reads (leader_for_shard (counting clock) 5 counted).1 ≡ 1
unfolding leader_for_shard counting
read_once = refl

leader_for_shard-reads_example :
    Kept counted (leader_for_shard (counting clock) 5 counted).1
    ⊎ (((client_for (counting clock) 5 counted).0 ≡ some none)
        × (IsDue clock (client_for (counting clock) 5 counted).1
            × ReadOnce clock counted (leader_for_shard (counting clock) 5 counted)))
leader_for_shard-reads_example = leader_for_shard-reads clock 5 one_shard counted refl

any_replica_for-FromShard_example :
    FromShard clock (λ l w n h. h) 5 (some members) (any_replica_for clock 5 old).0
unfolding get_key table
any_replica_for-FromShard_example =
    any_replica_for-FromShard clock (λ l w n h. h) 5 one_shard old refl
