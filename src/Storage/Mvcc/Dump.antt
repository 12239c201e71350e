-- ===== src/Storage/Mvcc/Dump.antt =====
-- `dump` and `load`: a snapshot carries the whole keyspace of the storage, and nothing of what
-- the loading engine held there.
use oxide_db.Base.{
  ◌≡◌, ◌≢◌, refl, ◌∙◌, inl, inr, Option-cases, ◌&&◌, Option, some, List, [], ◌∷◌, arith, is_some,
  if◌then◌else◌,
}
use oxide_db.Base.Bytes.{Bytes, bytes_eq, bytes_eq_iff}
use oxide_db.Storage.Engine
use oxide_db.Storage.Engine.{Engine, lookup, rows_of, scan_keys, in_range}
use oxide_db.Storage.Engine.Laws.{last_of, get-put_batch, get-delete_range}
use oxide_db.Storage.Engine.Order.{elem, elem-scan_keys}
use oxide_db.Storage.Keyspace.{ok, all_start, all_end}
use oxide_db.Storage.Mvcc.{dump, load}
use oxide_db.Storage.Mvcc.Types.{MsgPack}

last_of-rows_of :
    (j : Bytes) (items : List (Bytes × Bytes)) (l : List Bytes) (o : Option Bytes)
    → last_of j (rows_of items l) o
      ≡ (if elem j l && is_some (lookup j items) then lookup j items else o)
unfolding last_of rows_of
last_of-rows_of j items [] o = refl
last_of-rows_of j items (k ∷ l) o = elim (Option-cases (lookup k items)) [
  | inl e ↦ ground (arith, last_of-rows_of j items l o, bytes_eq_iff j k)
  | inr (v, e) ↦
      ground
        (arith, bytes_eq_iff j k, last_of-rows_of j items l (if bytes_eq j k then some v else o))
]

last_of-scan :
    (j start end : Bytes) (e : Engine) (o : Option Bytes)
    → last_of j (Engine.scan start end e) o
      ≡ (if in_range start end j && is_some (Engine.get j e) then Engine.get j e else o)
unfolding Engine.scan Engine.get
last_of-scan j start end e o =
    last_of-rows_of j e.items (scan_keys start end e) o
    ∙ ground (arith, elem-scan_keys start end j e)

load_rows :
    (codec : MsgPack) (blob : Bytes) (rows : List (Bytes × Bytes)) (target : Engine)
    → blob ≢ []
    → codec.unpack_rows blob ≡ ok rows
    → load codec blob target
      ≡ ok (Engine.put_batch rows (Engine.delete_range all_start all_end target))
unfolding load
load_rows codec [] rows target h e = absurd (h refl)
load_rows codec (b ∷ blob) rows target h e = rw e refl

-- Loading a dump into any engine gives each key of the keyspace the value that it had where the
-- dump was taken, absent ones included, and leaves every key outside of it.
pub get-load-dump :
    (codec : MsgPack) (e target : Engine)
    → (after : Engine) × (load codec (dump codec e) target ≡ ok after)
      × ((k : Bytes)
          → Engine.get k after
            ≡ (if in_range all_start all_end k then Engine.get k e else Engine.get k target))
unfolding dump
get-load-dump codec e target =
    let rows = Engine.scan all_start all_end e in
    let cleared = Engine.delete_range all_start all_end target in
    (
      Engine.put_batch rows cleared,
      load_rows codec (codec.pack_rows rows) rows target (codec.pack_rows_nonempty rows)
          (codec.unpack_pack_rows rows),
      λ k.
          get-put_batch rows k cleared
          ∙ last_of-scan k all_start all_end e (Engine.get k cleared)
          ∙ ground (arith, get-delete_range all_start all_end k target),
    )
