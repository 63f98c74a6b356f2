-- ===== src/Session/Ring.antt =====
-- internal/session/ring.go: the bounded ring of raw output. A slice is the list of its bytes; the
-- lock makes each method one step, so a method is a function on the record.
pub mod Suffix
use falkn.Base.{ℕ, ◌+◌, ◌-◌, List, [], ◌∷◌, ◌++◌, length, take, drop, ltb, leb, if◌then◌else◌}

-- `data` is the field `bytes`.
pub record ByteRing : Type 0 where
  pub bytes : List ℕ
  pub capacity : ℕ

unfoldable pub new_byte_ring : ℕ → ByteRing
new_byte_ring capacity = record { bytes = []; capacity = capacity }

-- Go's `copy(dst, src)` where `src` is no longer than `dst`: the rest of `dst` keeps its bytes.
copy : List ℕ → List ℕ → List ℕ
copy dst src = src ++ drop (length src) dst

-- The bytes that stay before `p` is appended, for `overflow = len(data) + len(p) - capacity`.
make_room : List ℕ → ℕ → List ℕ
unfolding copy
make_room bytes overflow =
    if ltb 0 overflow
    then take (length bytes - overflow) (copy bytes (drop overflow bytes))
    else bytes

-- `Write`. In the second case `overflow` is at most `len(data)`.
unfoldable pub write : ByteRing → List ℕ → ByteRing
unfolding make_room
write r p =
    if leb r.capacity (length p)
    then record r { bytes = drop (length p - r.capacity) p }
    else record r { bytes = make_room r.bytes (length r.bytes + length p - r.capacity) ++ p }

-- The chunks of one session, in the order in which they are read from its terminal.
unfoldable pub write_all : ByteRing → List (List ℕ) → ByteRing
write_all r [] = r
write_all r (p ∷ ps) = write_all (write r p) ps
