-- ===== src/Storage/Engine/NextKey.antt =====
-- oxidedb/storage/engine.py: what lies between a key and its `next_key`.
use oxide_db.Base.{Bool, true, false, ◌&&◌, ◌||◌, [], ◌∷◌, ltb, ◌==◌}
use oxide_db.Base.Bytes.{Bytes}

-- `x.startswith(key)`
abbrev pub starts_with : Bytes → Bytes → Bool
starts_with [] x = true
starts_with (b ∷ key) [] = false
starts_with (b ∷ key) (c ∷ x) = (b == c) && starts_with key x

-- some byte is not 0xff
abbrev pub raisable : Bytes → Bool
raisable [] = false
raisable (b ∷ key) = ltb b 0xff || raisable key
