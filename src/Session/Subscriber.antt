-- ===== src/Session/Subscriber.antt =====
-- internal/session/output_subscriber.go: the queue between the terminal reader and one attached
-- client, and the goroutine `run` that hands its chunks over. Each method runs under the lock, so
-- it is one step; `run` is a state machine whose states are the places where it can wait.
pub mod Order
pub mod Wake
use falkn.Base.{
  ℕ, ◌+◌, ◌-◌, ◌*◌, ◌≡◌, Bool, true, false, ◌||◌, List, [], ◌∷◌, ◌++◌, Option, none, some, length,
  ltb, if◌then◌else◌,
}

-- maxTranscriptBytes (manager.go)
abbrev pub max_transcript_bytes : ℕ
max_transcript_bytes = 2 * 1024 * 1024

abbrev pub Chunk : Type 0
Chunk = List ℕ

-- `wake` tells whether the channel of capacity one holds its token. The channel `done` is closed
-- exactly when `closed` is set, and `updates` has no buffer.
pub record OutputSubscriber : Type 0 where
  pub queue : List Chunk
  pub queued_bytes : ℕ
  pub wake : Bool
  pub closed : Bool

unfoldable pub new_output_subscriber : OutputSubscriber
new_output_subscriber = record { queue = []; queued_bytes = 0; wake = false; closed = false }

-- The send to `wake` is dropped when the token is there already.
unfoldable pub enqueue : OutputSubscriber → Chunk → OutputSubscriber × Bool
enqueue s chunk =
    if s.closed || ltb max_transcript_bytes (s.queued_bytes + length chunk) then (s, false) else (
      record s {
        queue = s.queue ++ chunk ∷ [];
        queued_bytes = s.queued_bytes + length chunk;
        wake = true;
      },
      true,
    )

unfoldable pub close : OutputSubscriber → OutputSubscriber
close s = if s.closed then s else record s { closed = true }

dequeue_from : List Chunk → OutputSubscriber → Option (Chunk × OutputSubscriber)
dequeue_from [] s = none
dequeue_from (chunk ∷ rest) s = some (chunk, record s { queue = rest })

unfoldable pub dequeue : OutputSubscriber → Option (Chunk × OutputSubscriber)
unfolding dequeue_from
dequeue s = dequeue_from s.queue s

unfoldable pub delivered : OutputSubscriber → ℕ → OutputSubscriber
delivered s size = record s { queued_bytes = s.queued_bytes - size }

-- Where `run` stands: about to dequeue, at the select that offers a chunk, between the send and
-- `delivered`, at the select on `wake`, or returned with the chunk that it still held, if any.
pub data Runner : Type 0 where
  looping : Runner
  offering : Chunk → Runner
  acknowledging : ℕ → Runner
  waiting : Runner
  returned : List Chunk → Runner

-- The subscriber and `run`, with two histories: the chunks that `enqueue` took, and those that the
-- client received from `updates`.
pub record System : Type 0 where
  pub subscriber : OutputSubscriber
  pub runner : Runner
  pub accepted : List Chunk
  pub received : List Chunk

unfoldable pub initial : System
unfolding new_output_subscriber
initial = record {
  subscriber = new_output_subscriber;
  runner = looping;
  accepted = [];
  received = [];
}

-- One step of `run`. A select with several ready cases may take any of them.
-- `sends` is the moment at which the client receives from `updates`.
pub data RunStep (s t : System) : Type 0 where
  takes :
      (chunk : Chunk) (q : OutputSubscriber)
      → s.runner ≡ looping
      → dequeue s.subscriber ≡ some (chunk, q)
      → t ≡ record s { subscriber = q; runner = offering chunk }
      → RunStep s t
  sleeps :
      s.runner ≡ looping
      → dequeue s.subscriber ≡ none
      → t ≡ record s { runner = waiting }
      → RunStep s t
  sends :
      (chunk : Chunk)
      → s.runner ≡ offering chunk
      → t ≡ record s { runner = acknowledging (length chunk); received = s.received ++ chunk ∷ [] }
      → RunStep s t
  acknowledges :
      (size : ℕ)
      → s.runner ≡ acknowledging size
      → t ≡ record s { subscriber = delivered s.subscriber size; runner = looping }
      → RunStep s t
  wakes :
      s.runner ≡ waiting
      → s.subscriber.wake ≡ true
      → t ≡ record s { subscriber = record s.subscriber { wake = false }; runner = looping }
      → RunStep s t
  stops_offering :
      (chunk : Chunk)
      → s.runner ≡ offering chunk
      → s.subscriber.closed ≡ true
      → t ≡ record s { runner = returned (chunk ∷ []) }
      → RunStep s t
  stops_waiting :
      s.runner ≡ waiting
      → s.subscriber.closed ≡ true
      → t ≡ record s { runner = returned [] }
      → RunStep s t

-- What `enqueue` leaves, with the histories.
after_enqueue : System → Chunk → OutputSubscriber × Bool → System
after_enqueue s chunk (q, true) = record s { subscriber = q; accepted = s.accepted ++ chunk ∷ [] }
after_enqueue s chunk (q, false) = record s { subscriber = q }

unfoldable pub enqueues : System → Chunk → System
unfolding after_enqueue
enqueues s chunk = after_enqueue s chunk (enqueue s.subscriber chunk)

-- The reader, the closer and `run` interleave in any order.
pub data Step (s t : System) : Type 0 where
  enqueued : (chunk : Chunk) → t ≡ enqueues s chunk → Step s t
  closes : t ≡ record s { subscriber = close s.subscriber } → Step s t
  runs : RunStep s t → Step s t

pub data Reach (s : System) : System → Type 0 where
  here : Reach s s
  next : {t u : System} → Reach s t → Step t u → Reach s u
