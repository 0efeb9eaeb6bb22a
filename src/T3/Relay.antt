-- ===== src/T3/Relay.antt =====
-- internal/t3/gateway.go: the end of `proxyWebsocket`, where two goroutines run `copyWS` in the two
-- directions, and the handler waits for the first of them.
--
-- What the two peers send, and when reading or writing fails, is open: a run of the steps is any
-- interleaving. After the handler has returned, its deferred calls have closed both connections, and then
-- every read and every write fails.
pub mod Delivery
use devcontainer_manager.Base.{Str, ℕ, suc, ◌+◌, ◌<◌, ◌≡◌, Bool, true, false, List, [], ◌∷◌, ◌++◌}

-- A message, with its type.
pub record Message : Type 0 where
  pub kind : ℕ
  pub payload : Str

-- Where a goroutine stands in the loop of `copyWS`.
pub data Copier : Type 0 where
  reading : Copier
  writing : Message → Copier
  finished : Copier

-- A direction, with the messages that were read and those that were written.
pub record Direction : Type 0 where
  pub copier : Copier
  pub received : List Message
  pub delivered : List Message

pub record Relay : Type 0 where
  pub down : Direction
  pub up : Direction
  -- the errors that wait in `errc`, a channel with room for two
  pub errors : ℕ
  pub returned : Bool

abbrev pub opened : Direction
opened = record { copier = reading; received = []; delivered = [] }

-- `errc := make(chan error, 2)` and the two `go` statements
abbrev pub start : Relay
start = record { down = opened; up = opened; errors = 0; returned = false }

-- The branches of the loop.
unfoldable pub read : Message → Direction → Direction
read m d = record d { copier = writing m; received = d.received ++ (m ∷ []) }

unfoldable pub write : Message → Direction → Direction
write m d = record d { copier = reading; delivered = d.delivered ++ (m ∷ []) }

unfoldable pub fail : Direction → Direction
fail d = record d { copier = finished }

pub data Side : Type 0 where
  downward upward : Side

abbrev pub direction : Side → Relay → Direction
direction downward r = r.down
direction upward r = r.up

abbrev pub set_direction : Side → Direction → Relay → Relay
set_direction downward d r = record r { down = d }
set_direction upward d r = record r { up = d }

pub data Step (r : Relay) : Relay → Type 0 where
  reads :
      (side : Side) (m : Message)
      → (direction side r).copier ≡ reading
      → r.returned ≡ false
      → Step r (set_direction side (read m (direction side r)) r)
  read_fails :
      (side : Side)
      → (direction side r).copier ≡ reading
      → r.errors < 2
      → Step r (record (set_direction side (fail (direction side r)) r) { errors = r.errors + 1 })
  writes :
      (side : Side) (m : Message)
      → (direction side r).copier ≡ writing m
      → r.returned ≡ false
      → Step r (set_direction side (write m (direction side r)) r)
  write_fails :
      (side : Side) (m : Message)
      → (direction side r).copier ≡ writing m
      → r.errors < 2
      → Step r (record (set_direction side (fail (direction side r)) r) { errors = r.errors + 1 })
  -- `<-errc`, and the deferred calls
  returns :
      (n : ℕ)
      → r.errors ≡ suc n
      → r.returned ≡ false
      → Step r (record r { errors = n; returned = true })

pub data Run : Relay → Type 0 where
  begin : Run start
  next : {r s : Relay} → Run r → Step r s → Run s
