-- ===== src/Session/Subscriber/Wake.antt =====
-- No wake-up is lost: `run` never sleeps on a queue that holds a chunk.
use falkn.Base.{◌≡◌, ◌≢◌, refl, ◌⊎◌, inl, inr, true, false, [], none, arith, Option-cases}
use falkn.Session.Subscriber.{
  Chunk, OutputSubscriber, enqueue, close, dequeue, Runner, looping, offering, acknowledging,
  waiting, returned, System, initial, RunStep, takes, sleeps, sends, acknowledges, wakes,
  stops_offering, stops_waiting, enqueues, Step, enqueued, closes, runs, Reach, here, next,
}

-- Asleep, the queue is empty or the token is in `wake`; returned, the subscriber is closed.
abbrev pub Awake : Runner → OutputSubscriber → Type 0
Awake waiting q = (q.queue ≡ []) ⊎ (q.wake ≡ true)
Awake (returned cs) q = q.closed ≡ true
Awake _ q = Unit

dequeue-none : (q : OutputSubscriber) → dequeue q ≡ none → q.queue ≡ []
unfolding dequeue
dequeue-none q e = ground arith

enqueue-Awake :
    (r : Runner) (q : OutputSubscriber) (chunk : Chunk) → Awake r q → Awake r (enqueue q chunk).0
unfolding enqueue
enqueue-Awake waiting q chunk a = ground arith
enqueue-Awake (returned cs) q chunk a = ground arith
enqueue-Awake _ q chunk a = tt

close-Awake : (r : Runner) (q : OutputSubscriber) → Awake r q → Awake r (close q)
unfolding close
close-Awake waiting q a = ground arith
close-Awake (returned cs) q a = ground arith
close-Awake _ q a = tt

enqueues-parts :
    (s : System) (chunk : Chunk)
    → ((enqueues s chunk).runner ≡ s.runner)
      × ((enqueues s chunk).subscriber ≡ (enqueue s.subscriber chunk).0)
unfolding enqueues enqueue
enqueues-parts s chunk = ground arith

RunStep-Awake :
    {s t : System} → RunStep s t → Awake s.runner s.subscriber → Awake t.runner t.subscriber
RunStep-Awake {s} {t} (takes chunk q e d f) v = rw f tt
RunStep-Awake {s} {t} (sleeps e d f) v = rw f (inl (dequeue-none s.subscriber d))
RunStep-Awake {s} {t} (sends chunk e f) v = rw f tt
RunStep-Awake {s} {t} (acknowledges size e f) v = rw f tt
RunStep-Awake {s} {t} (wakes e w f) v = rw f tt
RunStep-Awake {s} {t} (stops_offering chunk e c f) v = rw f c
RunStep-Awake {s} {t} (stops_waiting e c f) v = rw f c

Step-Awake : {s t : System} → Step s t → Awake s.runner s.subscriber → Awake t.runner t.subscriber
Step-Awake {s} (enqueued chunk e) v =
    rw (e, (enqueues-parts s chunk).0, (enqueues-parts s chunk).1)
      (enqueue-Awake s.runner s.subscriber chunk v)
Step-Awake {s} (closes e) v = rw e (close-Awake s.runner s.subscriber v)
Step-Awake (runs r) v = RunStep-Awake r v

Reach-Awake : {s : System} → Reach initial s → Awake s.runner s.subscriber
unfolding initial
Reach-Awake here = tt
Reach-Awake (next r st) = Step-Awake st (Reach-Awake r)

-- Whether `run` has a step of its own.
abbrev pub CanRun : System → Type 0
CanRun s = (t : System) × RunStep s t

runner-CanRun :
    (r : Runner) (s : System)
    → s.runner ≡ r
    → Awake r s.subscriber
    → s.subscriber.closed ≡ false
    → s.subscriber.queue ≢ []
    → CanRun s
runner-CanRun looping s e a c q = elim (Option-cases (dequeue s.subscriber)) [
  | inl d ↦ absurd (q (dequeue-none s.subscriber d))
  | inr ((chunk, rest), d) ↦
      (record s { subscriber = rest; runner = offering chunk }, takes chunk rest e d refl)
]
runner-CanRun (offering chunk) s e a c q = (_, sends chunk e refl)
runner-CanRun (acknowledging size) s e a c q = (_, acknowledges size e refl)
runner-CanRun waiting s e (inl empty) c q = absurd (q empty)
runner-CanRun waiting s e (inr w) c q = (_, wakes e w refl)
runner-CanRun (returned cs) s e a c q = cc

-- In every reachable state of an open subscriber whose queue is not empty, `run` can take a step:
-- the token of capacity one is never missed, whatever the interleaving of `enqueue` and `run`.
pub Reach-CanRun :
    {s : System}
    → Reach initial s
    → s.subscriber.closed ≡ false
    → s.subscriber.queue ≢ []
    → CanRun s
Reach-CanRun {s} r c q = runner-CanRun s.runner s refl (Reach-Awake r) c q
