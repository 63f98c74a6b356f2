-- ===== src/Session/Ring/Suffix.antt =====
-- The ring against what it promises: the last `capacity` bytes of all that was written.
use falkn.Base.{
  ℕ, ◌-◌, ◌≤◌, ◌≡◌, refl, sym, ap, ◌∙◌, inl, inr, List, [], ◌∷◌, ◌++◌, append-nil, append_assoc,
  length, drop, length-append, length-drop, drop_all, take-append_exact, drop-append_left,
  drop-append_right, suffix, suffix-append, concat, arith, ltb, leb, Bool-cases,
}
use falkn.Session.Ring.{ByteRing, new_byte_ring, make_room, copy, write, write_all}

make_room-drop : (bytes : List ℕ) (overflow : ℕ) → make_room bytes overflow ≡ drop overflow bytes
unfolding make_room copy
make_room-drop bytes overflow = elim (Bool-cases (ltb 0 overflow)) [
  | inl some_room ↦
      rw some_room (take-append_exact _ (drop overflow bytes) _ (sym (length-drop overflow bytes)))
  | inr none_needed ↦ let e : overflow ≡ 0 = ground arith in rw (none_needed, e) refl
]

-- One write keeps the last `capacity` bytes of what was there followed by the chunk.
write-bytes :
    (r : ByteRing) (p : List ℕ)
    → length r.bytes ≤ r.capacity
    → (write r p).bytes ≡ suffix r.capacity (r.bytes ++ p)
unfolding write
write-bytes r p h = elim (Bool-cases (leb r.capacity (length p))) [
  | inl long ↦
      let n : r.capacity ≤ length p = ground arith in
      rw long (
        ap (λ (k : ℕ). drop k p) (omega (arith, length-append r.bytes p))
        ∙ sym (drop-append_right _ r.bytes p (omega (arith, length-append r.bytes p))))
  | inr short ↦
      let n : length p ≤ r.capacity = ground arith in
      rw short (
        ap (λ b. b ++ p) (make_room-drop r.bytes _)
        ∙ sym (drop-append_left _ r.bytes p (omega arith))
        ∙ ap (λ (k : ℕ). drop k (r.bytes ++ p)) (omega (arith, length-append r.bytes p)))
]

write-capacity : (r : ByteRing) (p : List ℕ) → (write r p).capacity ≡ r.capacity
unfolding write
write-capacity r p = ground arith

write_all-bytes :
    (r : ByteRing) (ps : List (List ℕ)) (seen : List ℕ)
    → r.bytes ≡ suffix r.capacity seen
    → (write_all r ps).bytes ≡ suffix r.capacity (seen ++ concat ps)
unfolding write_all
write_all-bytes r [] seen e = e ∙ ap (suffix r.capacity) (sym (append-nil seen))
write_all-bytes r (p ∷ ps) seen e =
    write_all-bytes (write r p) ps (seen ++ p) (
      write-bytes r p (omega (arith, ap length e, length-drop (length seen - r.capacity) seen))
      ∙ ap (λ b. suffix r.capacity (b ++ p)) e
      ∙ suffix-append r.capacity seen p
      ∙ ap (λ (c : ℕ). suffix c (seen ++ p)) (sym (write-capacity r p)))
    ∙ ap (λ (c : ℕ). suffix c ((seen ++ p) ++ concat ps)) (write-capacity r p)
    ∙ ap (suffix r.capacity) (append_assoc seen p (concat ps))

-- After any sequence of writes to a new ring, of whatever sizes, the ring holds the last `capacity`
-- bytes of everything written, in order: nothing inside that window is lost, moved or repeated.
pub write_all-suffix :
    (capacity : ℕ) (ps : List (List ℕ))
    → (write_all (new_byte_ring capacity) ps).bytes ≡ suffix capacity (concat ps)
unfolding new_byte_ring
write_all-suffix capacity ps =
    write_all-bytes (new_byte_ring capacity) ps [] (sym (drop_all _ [] (omega arith)))
