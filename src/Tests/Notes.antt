-- ===== src/Tests/Notes.antt =====
-- The notes of a move with a codec that is spelled out.
use oxide_db.Base.{ℕ, suc, zero, ◌≡◌, refl, Option, none, some, List, [], ◌∷◌, ap}
use oxide_db.Base.Bytes.{Bytes}
use oxide_db.Raft.Recovery.Notes.{
  PendingNote, Kind, Fields, NoteCodec, read_note, write_note, forget_note, read_note-write_note,
}

-- numbers up to a zero, and what is behind it
abbrev pack_nodes : List ℕ → List ℕ → Bytes
pack_nodes [] m = 0 ∷ m
pack_nodes (n ∷ l) m = suc n ∷ pack_nodes l m

abbrev before_zero : Bytes → List ℕ
before_zero [] = []
before_zero (zero ∷ l) = []
before_zero (suc n ∷ l) = n ∷ before_zero l

abbrev behind_zero : Bytes → List ℕ
behind_zero [] = []
behind_zero (zero ∷ l) = l
behind_zero (suc n ∷ l) = behind_zero l

before-pack : (l m : List ℕ) → before_zero (pack_nodes l m) ≡ l
before-pack [] m = refl
before-pack (n ∷ l) m = ap (λ x. n ∷ x) (before-pack l m)

behind-pack : (l m : List ℕ) → behind_zero (pack_nodes l m) ≡ m
behind-pack [] m = refl
behind-pack (n ∷ l) m = behind-pack l m

abbrev pack : Fields → Bytes
pack (Fields.split_fields s key new) = 0 ∷ s ∷ new ∷ key
pack (Fields.move_fields s l m) = 1 ∷ s ∷ pack_nodes l m

abbrev unpack : Bytes → Option Fields
unpack (zero ∷ s ∷ new ∷ key) = some (Fields.split_fields s key new)
unpack (suc k ∷ s ∷ l) = some (Fields.move_fields s (before_zero l) (behind_zero l))
unpack _ = none

unpack-pack : (f : Fields) → unpack (pack f) ≡ some f
unpack-pack (Fields.split_fields s key new) = refl
unpack-pack (Fields.move_fields s l m) = rw (before-pack l m, behind-pack l m) refl

abbrev codec : NoteCodec
codec = record { pack = pack; unpack = unpack; unpack-pack = unpack-pack }

abbrev moving : PendingNote
moving = PendingNote.move_note 5 (1 ∷ 2 ∷ []) (3 ∷ [])

read_note-write_note_example :
    (read_note codec 5 Kind.migration_kind (write_note codec moving ([] ∷ [])) ≡ some (some moving))
    × (read_note codec 5 Kind.migration_kind
          (forget_note codec 5 Kind.migration_kind (write_note codec moving ([] ∷ [])))
        ≡ some none)
read_note-write_note_example = read_note-write_note codec moving [] []
