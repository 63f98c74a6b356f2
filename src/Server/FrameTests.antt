-- ===== src/Server/FrameTests.antt =====
-- Tests of the attach frames, and their theorem at a concrete input.
use falkn.Base.{◌≡◌, refl, true, List, [], ◌∷◌, none, arith, map, concat, All}
use falkn.Base.Text.{codes}
use falkn.Session.Manager.{World, new_manager}
use falkn.Server.Frames.{
  Frame, input_frame, resize_frame, detach_frame, focus_frame, encode, read_attach_frames,
}
use falkn.Server.Frames.Delivery.{act_all, Fits, read_attach_frames-encode}

abbrev world : World
world = record {
  valid = λ t. t;
  screen = λ id. none;
  foreground = λ id. ("", "");
  shell_name = λ id. "zsh";
  writable = true;
  writable_again = true;
  killable = true;
  accepts_input = true;
  accepts_return = true;
  resizable = true;
}

abbrev frames : List Frame
frames = input_frame [] ∷ focus_frame true ∷ detach_frame ∷ input_frame (codes "ls") ∷ []

resize_bytes : encode (resize_frame 300 24) ≡ b'r' ∷ 0 ∷ 0 ∷ 0 ∷ 4 ∷ 1 ∷ 44 ∷ 0 ∷ 24 ∷ []
unfolding encode
resize_bytes = refl

frames-Fits : All Fits frames
unfolding Fits
frames-Fits = (omega arith, (tt, (tt, (omega arith, tt))))

read_attach_frames-encode_example :
    read_attach_frames world "s1" (concat (map encode frames)) (new_manager none)
    ≡ act_all world "s1" frames (new_manager none)
read_attach_frames-encode_example =
    read_attach_frames-encode world "s1" frames (new_manager none) frames-Fits
