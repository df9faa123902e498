-- ===== src/Writer/Loop.antt =====
-- `run` of writer.go with its two channels. A channel is the list of what it holds, oldest first,
-- with a flag that its sender closed it; each receive of the loop is a step, and the sends come
-- between the steps in any order.
pub mod Order
pub mod Ends
mod Tests
use tssniff.Prelude.{
  ℕ, Bool, true, false, not, ◌||◌, ◌&&◌, List, [], ◌∷◌, ◌++◌, Option, ltb, if◌then◌else◌, length,
}
use tssniff.Events.{ObservedWrite, PunchRequest}
use tssniff.Shm.Io.{IoError, Io}
use tssniff.Writer.{Writer, process_write, process_punch}

abbrev pub writer_queue_depth : ℕ
writer_queue_depth = 2048

-- `writerCommand`
pub data Command : Type 0 where
  write_command : ObservedWrite → Command
  barrier_command : Command

-- What the operating system returns to the calls of one round: `WriteAt`, the overlay's `Fallocate`,
-- the image's `Fallocate`, and `Sync`.
pub record Os : Type 0 where
  pub io : Io
  pub release : Option IoError
  pub punch : Option IoError
  pub sync : Option IoError

-- Where the loop is: in its inner loop, behind the label `wait`, or returned.
pub data Phase : Type 0 where
  draining waiting returned : Phase

-- The loop and its channels; `in_live` and `punch_live` stand for the variables that become nil.
-- What was sent, what was handled and what the barriers were answered is kept beside them.
pub record Loop : Type 0 where
  pub writer : Writer
  pub commands : List Command
  pub punches : List PunchRequest
  pub in_closed : Bool
  pub punch_closed : Bool
  pub in_live : Bool
  pub punch_live : Bool
  pub phase : Phase
  pub sent_commands : List Command
  pub sent_punches : List PunchRequest
  pub handled_commands : List Command
  pub handled_punches : List PunchRequest
  pub replies : List (Option IoError)

-- The loop when `Start` starts it.
abbrev pub new_loop : Writer → Loop
new_loop w = record {
  writer = w;
  commands = [];
  punches = [];
  in_closed = false;
  punch_closed = false;
  in_live = true;
  punch_live = true;
  phase = draining;
  sent_commands = [];
  sent_punches = [];
  handled_commands = [];
  handled_punches = [];
  replies = [];
}

-- `processCommand`: the writer behind it, and the answers that go out.
pub process_command : Writer → Command → Os → Writer × List (Option IoError)
process_command w (write_command ev) os = (process_write w ev os.io os.release, [])
process_command w barrier_command os = (w, os.sync ∷ [])

-- A receive of `in` that does not block.
pub take_command : Os → Loop → Loop
take_command os l = elim l.commands [
  | [] ↦ record l { in_live = false; phase = draining }
  | c ∷ cs ↦
      let (w, answers) = process_command l.writer c os in
      record l {
        writer = w;
        commands = cs;
        phase = draining;
        handled_commands = l.handled_commands ++ (c ∷ []);
        replies = l.replies ++ answers;
      }
]

-- A receive of `punchIn` that does not block.
pub take_punch : Os → Loop → Loop
take_punch os l = elim l.punches [
  | [] ↦ record l { punch_live = false; phase = draining }
  | p ∷ ps ↦ record l {
    writer = process_punch l.writer p os.punch;
    punches = ps;
    phase = draining;
    handled_punches = l.handled_punches ++ (p ∷ []);
  }
]

-- Whether a channel has a value or was closed.
abbrev pub is_ready {ℓ} : {A : Type ℓ} → List A → Bool → Bool
is_ready xs closed = ltb 0 (length xs) || closed

-- One step of the loop that is in the given phase. When both cases of the `select` are ready,
-- `prefer` says whether the command is taken; when none is, the loop stays.
pub move_in : Phase → Bool → Os → Loop → Loop
move_in draining prefer os l =
    if l.in_live && is_ready l.commands l.in_closed
    then take_command os l
    else record l { phase = waiting }
move_in waiting prefer os l =
    let command_ready = l.in_live && is_ready l.commands l.in_closed in
    let punch_ready = l.punch_live && is_ready l.punches l.punch_closed in
    if not l.in_live && not l.punch_live
    then record l { phase = returned }
    else if command_ready && (prefer || not punch_ready)
    then take_command os l
    else if punch_ready
    then take_punch os l
    else l
move_in returned prefer os l = l

pub move : Bool → Os → Loop → Loop
move prefer os l = move_in l.phase prefer os l

-- `SubmitWrite` and `SubmitBarrier`. A send blocks while the channel is full, and is no step then;
-- nothing is sent on a channel that was closed.
pub send_command : Command → Loop → Loop
send_command c l =
    if l.in_closed || not (ltb (length l.commands) writer_queue_depth)
    then l
    else record l { commands = l.commands ++ (c ∷ []); sent_commands = l.sent_commands ++ (c ∷ []) }

-- `SubmitPunch`, with whether the request was taken.
unfoldable pub submit_punch : PunchRequest → Loop → Bool × Loop
submit_punch p l =
    if l.punch_closed || not (ltb (length l.punches) writer_queue_depth) then (false, l) else (
      true,
      record l { punches = l.punches ++ (p ∷ []); sent_punches = l.sent_punches ++ (p ∷ []) },
    )

-- A step of the senders or of the loop.
pub data Event : Type 0 where
  sends : Command → Event
  submits : PunchRequest → Event
  closes_input closes_punch_input : Event
  moves : Bool → Os → Event

-- `CloseInput` and `ClosePunchInput` set the flags.
pub step : Event → Loop → Loop
step (sends c) l = send_command c l
step (submits p) l = (submit_punch p l).1
step closes_input l = record l { in_closed = true }
step closes_punch_input l = record l { punch_closed = true }
step (moves prefer os) l = move prefer os l

pub run : List Event → Loop → Loop
run [] l = l
run (e ∷ es) l = run es (step e l)
