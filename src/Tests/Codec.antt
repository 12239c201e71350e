-- ===== src/Tests/Codec.antt =====
-- A packing of locks and rows that stands for msgpack in the tests: lengths before their contents.
use oxide_db.Base.{
  ℕ, zero, suc, ◌≡◌, ◌≢◌, refl, ap, ◌∙◌, List, [], ◌∷◌, ◌++◌, length, take, drop, arith,
}
use oxide_db.Base.Bytes.{Bytes}
use oxide_db.Storage.Keyspace.{Result, ok, raise, value_error}
use oxide_db.Storage.Mvcc.Types.{LockStatus, LockFields, MsgPack}

take_part : (p s : Bytes) → take (length p) (p ++ s) ≡ p
take_part [] s = refl
take_part (x ∷ p) s = ap (λ l. x ∷ l) (take_part p s)

drop_part : (p s : Bytes) → drop (length p) (p ++ s) ≡ s
drop_part [] s = refl
drop_part (x ∷ p) s = drop_part p s

abbrev code : LockStatus → ℕ
code LockStatus.locked = 0
code LockStatus.committed = 1
code LockStatus.aborted = 2

abbrev status_of : ℕ → LockStatus
status_of zero = LockStatus.locked
status_of (suc zero) = LockStatus.committed
status_of (suc (suc n)) = LockStatus.aborted

status_of-code : (s : LockStatus) → status_of (code s) ≡ s
status_of-code LockStatus.locked = refl
status_of-code LockStatus.committed = refl
status_of-code LockStatus.aborted = refl

abbrev pack_lock : LockFields → Bytes
pack_lock f = code f.status ∷ f.lock_time ∷ length f.primary_key ∷ f.primary_key ++ f.value

abbrev unpack_lock : Bytes → Result LockFields
unpack_lock (s ∷ t ∷ n ∷ l) =
    ok (record { status = status_of s; primary_key = take n l; lock_time = t; value = drop n l })
unpack_lock _ = raise value_error

pub unpack_pack_lock : (f : LockFields) → unpack_lock (pack_lock f) ≡ ok f
unpack_pack_lock f =
    rw (status_of-code f.status, take_part f.primary_key f.value, drop_part f.primary_key f.value)
      refl

abbrev pack_body : List (Bytes × Bytes) → Bytes
pack_body [] = []
pack_body ((k, v) ∷ rows) = length k ∷ length v ∷ k ++ (v ++ pack_body rows)

abbrev unpack_body : ℕ → Bytes → List (Bytes × Bytes)
unpack_body zero l = []
unpack_body (suc n) (a ∷ b ∷ l) = (take a l, take b (drop a l)) ∷ unpack_body n (drop b (drop a l))
unpack_body (suc n) _ = []

unpack_row :
    (n : ℕ) (k v rest : Bytes)
    → unpack_body (suc n) (length k ∷ length v ∷ k ++ (v ++ rest)) ≡ (k, v) ∷ unpack_body n rest
unpack_row n k v rest =
    rw (take_part k (v ++ rest), drop_part k (v ++ rest), take_part v rest, drop_part v rest) refl

pub unpack_body-pack_body :
    (rows : List (Bytes × Bytes)) → unpack_body (length rows) (pack_body rows) ≡ rows
unpack_body-pack_body [] = refl
unpack_body-pack_body ((k, v) ∷ rows) =
    let row : unpack_body (suc (length rows)) (pack_body ((k, v) ∷ rows))
        ≡ (k, v) ∷ unpack_body (length rows) (pack_body rows) =
      unpack_row (length rows) k v (pack_body rows) in
    row ∙ ap (λ l. (k, v) ∷ l) (unpack_body-pack_body rows)

pub packed-nonempty : (rows : List (Bytes × Bytes)) → length rows ∷ pack_body rows ≢ []
packed-nonempty rows h = absurd (ground arith)

abbrev unpack_rows : Bytes → Result (List (Bytes × Bytes))
unpack_rows [] = raise value_error
unpack_rows (n ∷ l) = ok (unpack_body n l)

abbrev pub test_codec : MsgPack
test_codec = record {
  pack_lock = pack_lock;
  unpack_lock = unpack_lock;
  unpack_pack_lock = unpack_pack_lock;
  pack_rows = λ rows. length rows ∷ pack_body rows;
  unpack_rows = unpack_rows;
  unpack_pack_rows = λ rows. ap ok (unpack_body-pack_body rows);
  pack_rows_nonempty = packed-nonempty;
}
