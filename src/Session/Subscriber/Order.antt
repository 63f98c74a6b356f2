-- ===== src/Session/Subscriber/Order.antt =====
-- The order and the size of what the queue holds, in every interleaving.
use falkn.Base.{ℕ, ◌+◌, ◌≤◌, ◌≡◌, refl, List, [], ◌∷◌, ◌++◌, append_assoc, length, arith}
use falkn.Session.Subscriber.{
  Chunk, new_output_subscriber, enqueue, close, dequeue, delivered, Runner, offering, acknowledging,
  returned, System, initial, RunStep, takes, sleeps, sends, acknowledges, wakes, stops_offering,
  stops_waiting, enqueues, Step, enqueued, closes, runs, Reach, here, next, max_transcript_bytes,
}

abbrev pub total : List Chunk → ℕ
total [] = 0
total (c ∷ cs) = length c + total cs

pub total-append : (xs ys : List Chunk) → total (xs ++ ys) ≡ total xs + total ys
total-append [] ys = omega arith
total-append (x ∷ xs) ys = omega (arith, total-append xs ys)

-- The chunk that `run` holds and has not handed over.
abbrev pub held : Runner → List Chunk
held (offering chunk) = chunk ∷ []
held (returned cs) = cs
held _ = []

-- The bytes that `run` took off the queue and did not report as delivered.
abbrev pub unreported : Runner → ℕ
unreported (offering chunk) = length chunk
unreported (acknowledging size) = size
unreported (returned cs) = total cs
unreported _ = 0

pub record Inv (s : System) : Type 0 where
  pub in_order : s.accepted ≡ s.received ++ (held s.runner ++ s.subscriber.queue)
  pub counted : s.subscriber.queued_bytes ≡ unreported s.runner + total s.subscriber.queue
  pub bounded : s.subscriber.queued_bytes ≤ max_transcript_bytes

initial-Inv : Inv initial
unfolding initial new_output_subscriber
initial-Inv = record { in_order = refl; counted = omega arith; bounded = omega arith }

enqueues-Inv : (s : System) (chunk : Chunk) → Inv s → Inv (enqueues s chunk)
unfolding enqueues enqueue
enqueues-Inv s chunk v = ground (
  arith,
  append_assoc s.received (held s.runner ++ s.subscriber.queue) (chunk ∷ []),
  append_assoc (held s.runner) s.subscriber.queue (chunk ∷ []),
  total-append s.subscriber.queue (chunk ∷ []),
)

close-Inv : (s : System) → Inv s → Inv (record s { subscriber = close s.subscriber })
unfolding close
close-Inv s v = ground arith

RunStep-Inv : {s t : System} → RunStep s t → Inv s → Inv t
unfolding dequeue delivered
RunStep-Inv {s} (takes chunk q e d f) v = ground arith
RunStep-Inv {s} (sleeps e d f) v = ground arith
RunStep-Inv {s} {t} (sends chunk e f) v =
    ground (arith, append_assoc s.received (chunk ∷ []) s.subscriber.queue)
RunStep-Inv {s} (acknowledges size e f) v = ground arith
RunStep-Inv {s} (wakes e w f) v = ground arith
RunStep-Inv {s} (stops_offering chunk e c f) v = ground arith
RunStep-Inv {s} (stops_waiting e c f) v = ground arith

Step-Inv : {s t : System} → Step s t → Inv s → Inv t
Step-Inv {s} (enqueued chunk e) v = rw e (enqueues-Inv s chunk v)
Step-Inv {s} (closes e) v = rw e (close-Inv s v)
Step-Inv (runs r) v = RunStep-Inv r v

-- In every interleaving from the start: the accepted chunks are the received ones followed by the
-- one that `run` holds and the queue, in order, so a client sees no gap, no repetition and no
-- reordering; `queuedBytes` is exactly the bytes not yet reported as delivered; and it never
-- exceeds one transcript window.
pub Reach-Inv : {s : System} → Reach initial s → Inv s
Reach-Inv here = initial-Inv
Reach-Inv (next r st) = Step-Inv st (Reach-Inv r)
