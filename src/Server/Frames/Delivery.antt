-- ===== src/Server/Frames/Delivery.antt =====
-- What the client writes is what the daemon does.
use Prim.Native.String.{String}
use falkn.Base.{
  ℕ, zero, suc, ◌+◌, ◌*◌, ◌/◌, ◌%◌, ◌≤◌, ◌<◌, ◌≡◌, refl, ap, ◌∙◌, true, false, List, [], ◌∷◌, ◌++◌,
  length, length-append, take-append_exact, drop-append_exact, All, concat, ltb, arith, map,
}
use falkn.Base.Int.{pos}
use falkn.Session.Manager.{Manager, World}
use falkn.Session.Manager.Calls.{write_raw_bytes, resize, set_notifications_muted}
use falkn.Server.Frames.{
  Frame, input_frame, resize_frame, detach_frame, focus_frame, notify_frame, put_uint16, put_uint32,
  flag, write_frame, encode, max_attach_frame, AttachEnd, detached, disconnected, next, read_frame,
  Turn, goes_on, stops, called, take_frame, take_resize, take_detach, take_focus, take_notify,
  step_after, read_next, follow, read_frames, read_attach_frames,
}

uint32_back :
    (n : ℕ)
    → n ≤ max_attach_frame
    → ((n / 16777216 % 256 * 256 + n / 65536 % 256) * 256 + n / 256 % 256) * 256 + n % 256 ≡ n
uint32_back n h = omega (arith, h)

uint16_back : (n : ℕ) → n < 65536 → n / 256 % 256 * 256 + n % 256 ≡ n
uint16_back n h = omega (arith, h)

-- A frame within the limit is read back whole, whatever follows it.
pub read_frame-write_frame :
    (kind : ℕ) (payload rest : List ℕ)
    → length payload ≤ max_attach_frame
    → read_frame (write_frame kind payload ++ rest) ≡ next kind payload rest
unfolding read_frame write_frame put_uint32
read_frame-write_frame kind payload rest h =
    let back = uint32_back (length payload) h in
    let fits : ltb max_attach_frame (length payload) ≡ false = ground (arith, h) in
    let there : ltb (length (payload ++ rest)) (length payload) ≡ false =
      ground (arith, length-append payload rest) in
    rw
      (
        back,
        fits,
        there,
        take-append_exact (length payload) payload rest refl,
        drop-append_exact payload rest,
      )
      refl

-- The call that a frame stands for.
unfoldable pub act : World → String → Frame → Manager → Turn
act w id (input_frame bytes) m = called (write_raw_bytes w id bytes m)
act w id (resize_frame columns rows) m = called (resize w id (pos columns) (pos rows) m)
act w id detach_frame m = stops detached m
act w id (focus_frame focused) m = goes_on m
act w id (notify_frame muted) m = called (set_notifications_muted w id muted m)

-- The calls of the frames in turn, until one ends the attachment.
abbrev pub act_then : (Manager → AttachEnd × Manager) → Turn → AttachEnd × Manager
act_then k (goes_on m) = k m
act_then k (stops e m) = (e, m)

unfoldable pub act_all : World → String → List Frame → Manager → AttachEnd × Manager
act_all w id [] m = (disconnected, m)
act_all w id (f ∷ fs) m = act_then (λ m'. act_all w id fs m') (act w id f m)

-- A frame that the client can write: its size fits the header's.
unfoldable pub Fits : Frame → Type 0
Fits (input_frame bytes) = length bytes ≤ max_attach_frame
Fits (resize_frame columns rows) = (columns < 65536) × (rows < 65536)
Fits detach_frame = Unit {0}
Fits (focus_frame focused) = Unit {0}
Fits (notify_frame muted) = Unit {0}

read_next-encode :
    (w : World) (id : String) (f : Frame) (rest : List ℕ) (m : Manager)
    → Fits f
    → read_next w id (read_frame (encode f ++ rest)) m ≡ step_after rest (act w id f m)
unfolding read_next encode Fits act take_frame
read_next-encode w id (input_frame bytes) rest m h =
    rw (read_frame-write_frame b'i' bytes rest h) refl
read_next-encode w id (resize_frame columns rows) rest m h =
    let size : length (put_uint16 columns ++ put_uint16 rows) ≤ max_attach_frame = omega arith in
    rw (read_frame-write_frame b'r' (put_uint16 columns ++ put_uint16 rows) rest size)
      (unfold take_resize put_uint16 in rw (uint16_back columns h.0, uint16_back rows h.1) refl)
read_next-encode w id detach_frame rest m h =
    rw (read_frame-write_frame b'd' [] rest (omega arith)) (unfold take_detach in refl)
read_next-encode w id (focus_frame true) rest m h =
    rw (read_frame-write_frame b'f' (flag true ∷ []) rest (omega arith))
      (unfold take_focus flag in refl)
read_next-encode w id (focus_frame false) rest m h =
    rw (read_frame-write_frame b'f' (flag false ∷ []) rest (omega arith))
      (unfold take_focus flag in refl)
read_next-encode w id (notify_frame true) rest m h =
    rw (read_frame-write_frame b'n' (flag true ∷ []) rest (omega arith))
      (unfold take_notify flag in refl)
read_next-encode w id (notify_frame false) rest m h =
    rw (read_frame-write_frame b'n' (flag false ∷ []) rest (omega arith))
      (unfold take_notify flag in refl)

follow_step :
    (k : List ℕ → Manager → AttachEnd × Manager) (k' : Manager → AttachEnd × Manager)
    (rest : List ℕ) (t : Turn)
    → ((m : Manager) → k rest m ≡ k' m)
    → follow k (step_after rest t) ≡ act_then k' t
unfolding step_after
follow_step k k' rest (goes_on m) h = h m
follow_step k k' rest (stops e m) h = refl

read_frames-encode :
    (w : World) (id : String) (fs : List Frame) (n : ℕ) (m : Manager)
    → All Fits fs
    → length fs < n
    → read_frames w id n (concat (map encode fs)) m ≡ act_all w id fs m
unfolding read_frames act_all
read_frames-encode w id fs zero m h l = ground (arith, l)
read_frames-encode w id [] (suc n) m h l = unfold read_next read_frame in refl
read_frames-encode w id (f ∷ fs) (suc n) m h l =
    ap (follow (λ rest m'. read_frames w id n rest m'))
      (read_next-encode w id f (concat (map encode fs)) m h.0)
    ∙ follow_step _ _ (concat (map encode fs)) (act w id f m)
        (λ m'. read_frames-encode w id fs n m' h.1 (omega (arith, l)))

length-encode : (f : Frame) → 1 ≤ length (encode f)
unfolding encode write_frame
length-encode (input_frame bytes) = omega arith
length-encode (resize_frame columns rows) = omega arith
length-encode detach_frame = omega arith
length-encode (focus_frame focused) = omega arith
length-encode (notify_frame muted) = omega arith

length-encode_all : (fs : List Frame) → length fs ≤ length (concat (map encode fs))
length-encode_all [] = omega arith
length-encode_all (f ∷ fs) = omega (
  arith,
  length-encode f,
  length-encode_all fs,
  length-append (encode f) (concat (map encode fs)),
)

-- The daemon's reading of the bytes of any frames, each within the sizes that its header can hold,
-- is the manager's calls that they stand for, in their order, up to a detach or an error.
pub read_attach_frames-encode :
    (w : World) (id : String) (fs : List Frame) (m : Manager)
    → All Fits fs
    → read_attach_frames w id (concat (map encode fs)) m ≡ act_all w id fs m
unfolding read_attach_frames
read_attach_frames-encode w id fs m h =
    read_frames-encode w id fs (suc (length (concat (map encode fs)))) m h
      (omega (arith, length-encode_all fs))
