-- ===== src/Metadata/Commands/Payload.antt =====
-- oxidedb/metadata/service.py: the table as plain data, `_table_payload` and `_parse_table`, the read
-- of the whole table, and the snapshots of the machine.
pub mod Same
use oxide_db.Base.{ℕ, Option, none, some, List, [], ◌∷◌, ◌≡◌, ◌≢◌, if◌then◌else◌}
use oxide_db.Base.Bytes.{Bytes, bytes_eq}
use oxide_db.Base.Dict.{update, sorted_items}
use oxide_db.Metadata.Table.{Address, ShardPlacement, Shards, RoutingTable}

pub record Entry : Type 0 where
  pub shard_id : ℕ
  pub start : Bytes
  pub end : Bytes
  pub nodes : List ℕ
  pub addresses : List (ℕ × Address)
  pub leader_id : Option ℕ
  pub leader_term : ℕ

pub record Payload : Type 0 where
  pub version : ℕ
  pub shards : List Entry

-- msgpack, which unpacks what it packed and packs nothing into no bytes
pub record TableCodec : Type 0 where
  pub pack : Payload → Bytes
  pub unpack : Bytes → Option Payload
  pub unpack-pack : (p : Payload) → unpack (pack p) ≡ some p
  pub pack_nonempty : (p : Payload) → pack p ≢ []

unfoldable pub entry_of : ShardPlacement → Entry
unfolding sorted_items
entry_of p = record {
  shard_id = p.shard_id;
  start = p.start;
  end = p.end;
  nodes = p.nodes;
  addresses = sorted_items p.addresses;
  leader_id = p.leader_id;
  leader_term = p.leader_term;
}

unfoldable pub entries_of : Shards → List Entry
unfolding entry_of
entries_of [] = []
entries_of ((shard_id, p) ∷ l) = entry_of p ∷ entries_of l

unfoldable pub table_payload : RoutingTable → Payload
unfolding entries_of sorted_items
table_payload t = record { version = t.version; shards = entries_of (sorted_items t.shards) }

unfoldable pub placement_of : Entry → ShardPlacement
unfolding update
placement_of e = record {
  shard_id = e.shard_id;
  start = e.start;
  end = e.end;
  nodes = e.nodes;
  addresses = update [] e.addresses;
  leader_id = e.leader_id;
  leader_term = e.leader_term;
}

unfoldable pub pairs_of : List Entry → Shards
unfolding placement_of
pairs_of [] = []
pairs_of (e ∷ l) = (e.shard_id, placement_of e) ∷ pairs_of l

unfoldable pub parse_table : Payload → RoutingTable
unfolding pairs_of update
parse_table p = record { version = p.version; shards = update [] (pairs_of p.shards) }

-- the table as this replica sees it
unfoldable pub table : RoutingTable → RoutingTable
unfolding parse_table table_payload
table t = parse_table (table_payload t)

abbrev pub table_key : Bytes
table_key =
    b'r' ∷ b'o' ∷ b'u' ∷ b't' ∷ b'i' ∷ b'n' ∷ b'g' ∷ b'_' ∷ b't' ∷ b'a' ∷ b'b' ∷ b'l' ∷ b'e' ∷ []

module _ (codec : TableCodec) where
  unfoldable pub encode : RoutingTable → Bytes
  unfolding table_payload
  encode t = codec.pack (table_payload t)

  -- a read of any other key is refused
  unfoldable pub get : Bytes → RoutingTable → Option Bytes
  unfolding encode bytes_eq
  get key t = if bytes_eq key table_key then some (encode t) else none

  -- `none` is the exception for bytes that are no table
  unfoldable pub restore : Bytes → Option RoutingTable
  unfolding parse_table
  restore [] = some (record { version = 0; shards = [] })
  restore (b ∷ l) = elim (codec.unpack (b ∷ l)) [ none ↦ none | some p ↦ some (parse_table p) ]
