-- ===== src/Raft/Recovery/Notes.antt =====
-- oxidedb/raft/recovery_notes.py: the notes of splits and moves in the storages of a shard's replicas.
-- A storage is what `save_admin` was given. The name of a note, `split/5`, is the pair that it is made
-- of. What is packed and unpacked is msgpack's, a parameter.
use oxide_db.Base.{
  ℕ, ◌≡◌, refl, Bool, true, false, ◌&&◌, Option, none, some, List, [], ◌∷◌, ◌==◌, if◌then◌else◌,
  Bool-cases, inl, inr, arith,
}
use oxide_db.Base.Bytes.{Bytes}

pub data Kind : Type 0 where
  split_kind migration_kind : Kind

-- `kind` says which of the other fields mean anything: here the fields are those
pub data PendingNote : Type 0 where
  split_note : ℕ → Bytes → ℕ → PendingNote
  move_note : ℕ → List ℕ → List ℕ → PendingNote

abbrev pub kind_of : PendingNote → Kind
kind_of (PendingNote.split_note s k n) = Kind.split_kind
kind_of (PendingNote.move_note s l m) = Kind.migration_kind

abbrev pub shard_of : PendingNote → ℕ
shard_of (PendingNote.split_note s k n) = s
shard_of (PendingNote.move_note s l m) = s

-- the dictionary that is packed
pub data Fields : Type 0 where
  split_fields : ℕ → Bytes → ℕ → Fields
  move_fields : ℕ → List ℕ → List ℕ → Fields

abbrev pub fields_of : PendingNote → Fields
fields_of (PendingNote.split_note s k n) = Fields.split_fields s k n
fields_of (PendingNote.move_note s l m) = Fields.move_fields s l m

abbrev pub Name : Type 0
Name = Kind × ℕ

abbrev pub record_key : Kind → ℕ → Name
record_key kind shard_id = (kind, shard_id)

abbrev kind_eq : Kind → Kind → Bool
kind_eq Kind.split_kind Kind.split_kind = true
kind_eq Kind.migration_kind Kind.migration_kind = true
kind_eq _ _ = false

abbrev pub name_eq : Name → Name → Bool
name_eq (k, s) (j, t) = kind_eq k j && s == t

abbrev pub Storage : Type 0
Storage = List (Name × Bytes)

unfoldable pub save_admin : Name → Bytes → Storage → Storage
save_admin name raw [] = (name, raw) ∷ []
save_admin name raw ((n, r) ∷ l) =
    let rest = save_admin name raw l in if name_eq name n then (name, raw) ∷ l else (n, r) ∷ rest

unfoldable pub load_admin : Name → Storage → Option Bytes
load_admin name [] = none
load_admin name ((n, r) ∷ l) =
    let rest = load_admin name l in if name_eq name n then some r else rest

unfoldable pub delete_admin : Name → Storage → Storage
delete_admin name [] = []
delete_admin name ((n, r) ∷ l) =
    let rest = delete_admin name l in if name_eq name n then rest else (n, r) ∷ rest

-- msgpack: `unpack` may raise
pub record NoteCodec : Type 0 where
  pub pack : Fields → Bytes
  pub unpack : Bytes → Option Fields
  pub unpack-pack : (f : Fields) → unpack (pack f) ≡ some f

-- the outer `none` is a field that is missing
unfoldable pub note_from_record : Kind → ℕ → Fields → Option (Option PendingNote)
note_from_record Kind.split_kind shard_id (Fields.split_fields s key new) =
    if s == shard_id then some (some (PendingNote.split_note shard_id key new)) else some none
note_from_record Kind.split_kind shard_id (Fields.move_fields s l m) =
    if s == shard_id then none else some none
note_from_record Kind.migration_kind shard_id (Fields.move_fields s l m) =
    if s == shard_id then some (some (PendingNote.move_note shard_id l m)) else some none
note_from_record Kind.migration_kind shard_id (Fields.split_fields s key new) =
    if s == shard_id then none else some none

module _ (msgpack : NoteCodec) where
  unfoldable pub save_note : PendingNote → Storage → Storage
  unfolding save_admin
  save_note n = save_admin (record_key (kind_of n) (shard_of n)) (msgpack.pack (fields_of n))

  unfoldable pub unpacked : Kind → ℕ → Option Fields → Option (Option PendingNote)
  unfolding note_from_record
  unpacked kind shard_id none = none
  unpacked kind shard_id (some f) = note_from_record kind shard_id f

  -- `none` raises
  unfoldable pub load_note : ℕ → Kind → Storage → Option (Option PendingNote)
  unfolding load_admin unpacked
  load_note shard_id kind storage = elim (load_admin (record_key kind shard_id) storage) [
    | none ↦ some none
    | some raw ↦ unpacked kind shard_id (msgpack.unpack raw)
  ]

  unfoldable pub write_note : PendingNote → List Storage → List Storage
  unfolding save_note
  write_note n [] = []
  write_note n (storage ∷ l) = save_note n storage ∷ write_note n l

  unfoldable pub read_note : ℕ → Kind → List Storage → Option (Option PendingNote)
  unfolding load_note
  read_note shard_id kind [] = some none
  read_note shard_id kind (storage ∷ l) = elim (load_note shard_id kind storage) [
    | none ↦ none
    | some none ↦ read_note shard_id kind l
    | some (some n) ↦ some (some n)
  ]

  unfoldable pub forget_note : ℕ → Kind → List Storage → List Storage
  unfolding delete_admin
  forget_note shard_id kind [] = []
  forget_note shard_id kind (storage ∷ l) =
      delete_admin (record_key kind shard_id) storage ∷ forget_note shard_id kind l

name_eq_refl : (n : Name) → name_eq n n ≡ true
name_eq_refl (Kind.split_kind, s) = ground arith
name_eq_refl (Kind.migration_kind, s) = ground arith

kind_eq-eq : (k j : Kind) → kind_eq k j ≡ true → k ≡ j
kind_eq-eq Kind.split_kind Kind.split_kind h = refl
kind_eq-eq Kind.migration_kind Kind.migration_kind h = refl
kind_eq-eq Kind.split_kind Kind.migration_kind h = absurd (ground (arith, h))
kind_eq-eq Kind.migration_kind Kind.split_kind h = absurd (ground (arith, h))

load-save_admin :
    (n : Name) (raw : Bytes) (l : Storage) → load_admin n (save_admin n raw l) ≡ some raw
unfolding load_admin save_admin
load-save_admin n raw [] = rw (name_eq_refl n) refl
load-save_admin n raw ((m, r) ∷ l) = elim (Bool-cases (name_eq n m)) [
  | inl e ↦ rw e (rw (name_eq_refl n) refl)
  | inr e ↦ rw e (rw e (load-save_admin n raw l))
]

load-delete_admin : (n : Name) (l : Storage) → load_admin n (delete_admin n l) ≡ none
unfolding load_admin delete_admin
load-delete_admin n [] = refl
load-delete_admin n ((m, r) ∷ l) = elim (Bool-cases (name_eq n m)) [
  | inl e ↦ rw e (load-delete_admin n l)
  | inr e ↦ rw e (rw e (load-delete_admin n l))
]

from_record :
    (n : PendingNote) → note_from_record (kind_of n) (shard_of n) (fields_of n) ≡ some (some n)
unfolding note_from_record
from_record (PendingNote.split_note s key new) = ground arith
from_record (PendingNote.move_note s l m) = ground arith

module _ (msgpack : NoteCodec) where
  load-save_note :
      (n : PendingNote) (storage : Storage)
      → load_note msgpack (shard_of n) (kind_of n) (save_note msgpack n storage) ≡ some (some n)
  unfolding load_note save_note unpacked
  load-save_note n storage =
      let name = record_key (kind_of n) (shard_of n) in
      rw
        (
          load-save_admin name (msgpack.pack (fields_of n)) storage,
          msgpack.unpack-pack (fields_of n),
          load_note,
          save_note,
          unpacked,
        )
        (from_record n)

  read_note-forget_note :
      (shard_id : ℕ) (kind : Kind) (l : List Storage)
      → read_note msgpack shard_id kind (forget_note msgpack shard_id kind l) ≡ some none
  unfolding read_note forget_note load_note
  read_note-forget_note shard_id kind [] = refl
  read_note-forget_note shard_id kind (storage ∷ l) =
      rw (load-delete_admin (record_key kind shard_id) storage, read_note, load_note)
        (read_note-forget_note shard_id kind l)

  -- A note that was written to the storages of one replica at least is read back as it was, and no
  -- storage has it once it is forgotten.
  pub read_note-write_note :
      (n : PendingNote) (storage : Storage) (l : List Storage)
      → (read_note msgpack (shard_of n) (kind_of n) (write_note msgpack n (storage ∷ l))
          ≡ some (some n))
        × (read_note msgpack
              (shard_of n)
              (kind_of n)
              (forget_note msgpack (shard_of n) (kind_of n) (write_note msgpack n (storage ∷ l)))
            ≡ some none)
  unfolding read_note write_note
  read_note-write_note n storage l = (
    rw (load-save_note n storage, read_note) refl,
    read_note-forget_note (shard_of n) (kind_of n) (write_note msgpack n (storage ∷ l)),
  )
