-- ===== src/Server/Frames.antt =====
-- The frames that an attached client sends: attachFrameWriter (internal/server/attach_client.go) and
-- readAttachFrames (internal/server/attach.go). The bytes are what the connection delivers until it
-- ends.
pub mod Delivery
use Prim.Native.String.{String}
use falkn.Base.{
  ℕ, zero, suc, ◌+◌, ◌*◌, ◌/◌, ◌%◌, ◌^◌, Bool, true, false, not, ◌&&◌, ◌||◌, List, [], ◌∷◌, ◌++◌,
  length, take, drop, ltb, ◌==◌, if◌then◌else◌,
}
use falkn.Base.Int.{pos}
use falkn.Session.Manager.{Manager, World, Error, Result, ok, err, M}
use falkn.Session.Manager.Calls.{write_raw_bytes, resize, set_notifications_muted}

abbrev pub max_attach_frame : ℕ
max_attach_frame = 256 * 1024

-- What the client asks of its session.
pub data Frame : Type 0 where
  input_frame : List ℕ → Frame
  resize_frame : ℕ → ℕ → Frame
  detach_frame : Frame
  focus_frame notify_frame : Bool → Frame

-- binary.BigEndian
unfoldable pub put_uint16 : ℕ → List ℕ
put_uint16 n = n / 256 % 256 ∷ n % 256 ∷ []

unfoldable pub put_uint32 : ℕ → List ℕ
put_uint32 n = n / 16777216 % 256 ∷ n / 65536 % 256 ∷ n / 256 % 256 ∷ n % 256 ∷ []

unfoldable pub flag : Bool → ℕ
flag true = 1
flag false = 0

-- `frame`
unfoldable pub write_frame : ℕ → List ℕ → List ℕ
unfolding put_uint32
write_frame kind payload = kind ∷ (put_uint32 (length payload) ++ payload)

-- `frame` with the input, `resize`, `frame` with nil, `focus` and `notificationsMuted`.
unfoldable pub encode : Frame → List ℕ
unfolding put_uint16 flag write_frame
encode (input_frame bytes) = write_frame b'i' bytes
encode (resize_frame columns rows) = write_frame b'r' (put_uint16 columns ++ put_uint16 rows)
encode detach_frame = write_frame b'd' []
encode (focus_frame focused) = write_frame b'f' (flag focused ∷ [])
encode (notify_frame muted) = write_frame b'n' (flag muted ∷ [])

-- How readAttachFrames ends: after a detach frame, at the end of the connection, on a frame that it
-- refuses, or on an error of the manager.
pub data AttachEnd : Type 0 where
  detached disconnected refused_frame : AttachEnd
  failed : Error → AttachEnd

-- The header and the payload of the next frame, with the bytes behind it.
pub data Next : Type 0 where
  ended too_large : Next
  next : ℕ → List ℕ → List ℕ → Next

unfoldable pub read_frame : List ℕ → Next
read_frame (kind ∷ a ∷ b ∷ c ∷ d ∷ rest) =
    let size = ((a * 256 + b) * 256 + c) * 256 + d in
    if ltb max_attach_frame size
    then too_large
    else if ltb (length rest) size
    then ended
    else next kind (take size rest) (drop size rest)
read_frame _ = ended

-- What one frame does: whether reading goes on, with the manager.
pub data Turn : Type 0 where
  goes_on : Manager → Turn
  stops : AttachEnd → Manager → Turn

abbrev pub called : Result (Unit {0}) × Manager → Turn
called (ok u, m) = goes_on m
called (err e, m) = stops (failed e) m

unfoldable pub take_resize : World → String → List ℕ → Manager → Turn
take_resize w id (a ∷ b ∷ c ∷ d ∷ []) m =
    called (resize w id (pos (a * 256 + b)) (pos (c * 256 + d)) m)
take_resize w id _ m = stops refused_frame m

unfoldable pub take_detach : List ℕ → Manager → Turn
take_detach [] m = stops detached m
take_detach (b ∷ bs) m = stops refused_frame m

unfoldable pub take_focus : List ℕ → Manager → Turn
take_focus (b ∷ []) m = if ltb 1 b then stops refused_frame m else goes_on m
take_focus _ m = stops refused_frame m

unfoldable pub take_notify : World → String → List ℕ → Manager → Turn
take_notify w id (b ∷ []) m =
    if ltb 1 b then stops refused_frame m else called (set_notifications_muted w id (b == 1) m)
take_notify w id _ m = stops refused_frame m

-- The switch on the kind of the frame.
unfoldable pub take_frame : World → String → ℕ → List ℕ → Manager → Turn
unfolding take_resize take_detach take_focus take_notify
take_frame w id kind payload m =
    if kind == b'i'
    then called (write_raw_bytes w id payload m)
    else if kind == b'r'
    then take_resize w id payload m
    else if kind == b'd'
    then take_detach payload m
    else if kind == b'f'
    then take_focus payload m
    else if kind == b'n'
    then take_notify w id payload m
    else stops refused_frame m

-- One turn of the loop: the manager and the bytes that are left, or the end.
pub data Step : Type 0 where
  more : Manager → List ℕ → Step
  done : AttachEnd → Manager → Step

unfoldable pub step_after : List ℕ → Turn → Step
step_after rest (goes_on m) = more m rest
step_after rest (stops e m) = done e m

unfoldable pub read_next : World → String → Next → Manager → Step
unfolding step_after
read_next w id ended m = done disconnected m
read_next w id too_large m = done refused_frame m
read_next w id (next kind payload rest) m = step_after rest (take_frame w id kind payload m)

abbrev pub follow : (List ℕ → Manager → AttachEnd × Manager) → Step → AttachEnd × Manager
follow k (more m rest) = k rest m
follow k (done e m) = (e, m)

unfoldable pub read_frames : World → String → ℕ → List ℕ → Manager → AttachEnd × Manager
unfolding read_next
read_frames w id zero bytes m = (disconnected, m)
read_frames w id (suc n) bytes m =
    follow (λ rest m'. read_frames w id n rest m') (read_next w id (read_frame bytes) m)

-- readAttachFrames: a frame takes at least five bytes, so one turn for each byte is enough.
unfoldable pub read_attach_frames : World → String → List ℕ → Manager → AttachEnd × Manager
unfolding read_frames
read_attach_frames w id bytes m = read_frames w id (suc (length bytes)) bytes m
