-- ===== src/Command/Exchange.antt =====
-- Requests in progress: the tasks that wait in `_execute`, and the steps in which the event loop may
-- run the code of the commander.
use brewblox_devcon_spark.Base.{◌+◌, ◌<◌, ◌≡◌, List, [], ◌∷◌, ◌++◌, Option, Text, All}
use brewblox_devcon_spark.Base.Exn.{Exn, ok, err}
use brewblox_devcon_spark.Models.Messages.{Opcode, ReadMode, EncodedPayload}
use brewblox_devcon_spark.Command.{
  Codec, CboxCommander, Request, Outcome, init, begin, on_response, finish,
}

-- The waiting tasks, the oldest first.
pub record System : Type 0 where
  pub commander : CboxCommander
  pub running : List Request

abbrev pub idle : System
idle = record { commander = init; running = [] }

-- Fewer than 65535 message numbers are taken while a request waits, also with one more.
abbrev pub HasRoom : System → Type 0
HasRoom s = All (λ r. s.commander.calls + 1 < r.fut + 65535) s.running

pub data Step (codec : Codec) : System → System → Type 0 where
  start :
      (s : System) (opcode : Opcode) (payload : Option EncodedPayload) (mode : ReadMode)
      (r : Request) (c : CboxCommander)
      → HasRoom s
      → begin codec opcode payload mode s.commander ≡ (ok r, c)
      → Step codec s (record { commander = c; running = s.running ++ r ∷ [] })
  refuse :
      (s : System) (opcode : Opcode) (payload : Option EncodedPayload) (mode : ReadMode) (e : Exn)
      (c : CboxCommander)
      → HasRoom s
      → begin codec opcode payload mode s.commander ≡ (err e, c)
      → Step codec s (record { commander = c; running = s.running })
  receive :
      (s : System) (msg : Text)
      → Step codec s (record { commander = on_response codec msg s.commander; running = s.running })
  complete :
      (s : System) (front back : List Request) (r : Request) (o : Outcome)
      → s.running ≡ front ++ r ∷ back
      → Step codec s (record { commander = (finish r o s.commander).1; running = front ++ back })

pub data Reach (codec : Codec) : System → Type 0 where
  begun : Reach codec idle
  later : {s t : System} → Reach codec s → Step codec s t → Reach codec t
