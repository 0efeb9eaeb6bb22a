-- ===== src/T3/Relay/Delivery.antt =====
-- internal/t3/gateway.go: what `copyWS` delivers.
use mathlib.Core.List.{append-nil}
use devcontainer_manager.Base.{
  length, ℕ, ◌+◌, ◌≤◌, ◌<◌, ◌≡◌, refl, sym, ap, ◌∙◌, ◌⊎◌, inl, inr, Bool, true, false, List, [],
  ◌∷◌, ◌++◌, arith,
}
use devcontainer_manager.T3.Relay.{
  Message, Copier, reading, writing, finished, Direction, Relay, read, write, fail, Side, downward,
  upward, direction, set_direction, Step, reads, read_fails, writes, write_fails, returns, Run,
  begin, next,
}

-- What a direction has not delivered: the message that it holds, or the one that it could not write.
abbrev pub Undelivered : Copier → List Message → Type 0
Undelivered reading rest = rest ≡ []
Undelivered (writing m) rest = rest ≡ m ∷ []
Undelivered finished rest = length rest ≤ 1

-- Everything that was read was written in the same order, but for at most one last message.
abbrev pub IsFaithful : Direction → Type 0
IsFaithful d =
    (rest : List Message) × (d.received ≡ d.delivered ++ rest) × Undelivered d.copier rest

abbrev pub ended : Copier → ℕ
ended finished = 1
ended _ = 0

abbrev pub taken : Bool → ℕ
taken true = 1
taken false = 0

pub record IsSound (r : Relay) : Type 0 where
  pub down : IsFaithful r.down
  pub up : IsFaithful r.up
  -- each goroutine sends one error, and the handler takes one
  pub counted : r.errors + taken r.returned ≡ ended r.down.copier + ended r.up.copier

Undelivered-reading :
    (c : Copier) (rest : List Message) → c ≡ reading → Undelivered c rest → rest ≡ []
Undelivered-reading reading rest at h = h
Undelivered-reading (writing m) rest at h = cc
Undelivered-reading finished rest at h = cc

Undelivered-writing :
    (c : Copier) (m : Message) (rest : List Message)
    → c ≡ writing m
    → Undelivered c rest
    → rest ≡ m ∷ []
Undelivered-writing reading m rest at h = cc
Undelivered-writing (writing n) m rest at h = cc
Undelivered-writing finished m rest at h = cc

Undelivered-length : (c : Copier) (rest : List Message) → Undelivered c rest → length rest ≤ 1
Undelivered-length reading rest h = omega (arith, ap (length {A = Message}) h)
Undelivered-length (writing m) rest h = omega (arith, ap (length {A = Message}) h)
Undelivered-length finished rest h = h

read-IsFaithful :
    (m : Message) (d : Direction) → d.copier ≡ reading → IsFaithful d → IsFaithful (read m d)
unfolding read
read-IsFaithful m d at (rest, e, held) =
    let all : d.received ≡ d.delivered =
      e ∙ rw (Undelivered-reading d.copier rest at held) (append-nil d.delivered) in
    (m ∷ [], ap (λ l. l ++ m ∷ []) all, refl)

write-IsFaithful :
    (m : Message) (d : Direction) → d.copier ≡ writing m → IsFaithful d → IsFaithful (write m d)
unfolding write
write-IsFaithful m d at (rest, e, held) = (
  [],
  e
      ∙ ap (λ l. d.delivered ++ l) (Undelivered-writing d.copier m rest at held)
      ∙ sym (append-nil (d.delivered ++ m ∷ [])),
  refl,
)

fail-IsFaithful : (d : Direction) → IsFaithful d → IsFaithful (fail d)
unfolding fail
fail-IsFaithful d (rest, e, held) = (rest, e, Undelivered-length d.copier rest held)

ended-reading : (c : Copier) → c ≡ reading → ended c ≡ 0
ended-reading reading at = refl
ended-reading (writing m) at = refl
ended-reading finished at = cc

ended-writing : (c : Copier) (m : Message) → c ≡ writing m → ended c ≡ 0
ended-writing reading m at = refl
ended-writing (writing n) m at = refl
ended-writing finished m at = cc

ended-le : (c : Copier) → ended c ≤ 1
ended-le reading = omega arith
ended-le (writing m) = omega arith
ended-le finished = omega arith

-- A direction is replaced by one that is faithful and has ended or not as before.
replaced :
    (side : Side) (r : Relay) (d : Direction)
    → IsSound r
    → IsFaithful d
    → ended d.copier ≡ ended (direction side r).copier
    → IsSound (set_direction side d r)
replaced downward r d h f same = record { down = f; up = h.up; counted = omega (arith, h.counted) }
replaced upward r d h f same = record { down = h.down; up = f; counted = omega (arith, h.counted) }

-- A direction ends and sends its error.
failed :
    (side : Side) (r : Relay)
    → IsSound r
    → ended (direction side r).copier ≡ 0
    → IsSound (record (set_direction side (fail (direction side r)) r) { errors = r.errors + 1 })
unfolding fail
failed downward r h running = record {
  down = fail-IsFaithful r.down h.down;
  up = h.up;
  counted = omega (arith, h.counted);
}
failed upward r h running = record {
  down = h.down;
  up = fail-IsFaithful r.up h.up;
  counted = omega (arith, h.counted);
}

faithful : (side : Side) (r : Relay) → IsSound r → IsFaithful (direction side r)
faithful downward r h = h.down
faithful upward r h = h.up

read-ended : (m : Message) (d : Direction) → ended (read m d).copier ≡ 0
unfolding read
read-ended m d = refl

write-ended : (m : Message) (d : Direction) → ended (write m d).copier ≡ 0
unfolding write
write-ended m d = refl

Step-IsSound : {r s : Relay} → Step r s → IsSound r → IsSound s
Step-IsSound {r} (reads side m at alive) h =
    replaced side r (read m (direction side r)) h
      (read-IsFaithful m (direction side r) at (faithful side r h))
      (read-ended m (direction side r) ∙ sym (ended-reading (direction side r).copier at))
Step-IsSound {r} (read_fails side at room) h =
    failed side r h (ended-reading (direction side r).copier at)
Step-IsSound {r} (writes side m at alive) h =
    replaced side r (write m (direction side r)) h
      (write-IsFaithful m (direction side r) at (faithful side r h))
      (write-ended m (direction side r) ∙ sym (ended-writing (direction side r).copier m at))
Step-IsSound {r} (write_fails side m at room) h =
    failed side r h (ended-writing (direction side r).copier m at)
Step-IsSound {r} (returns n some_error alive) h = record {
  down = h.down;
  up = h.up;
  counted = ground (arith, h.counted);
}

Run-IsSound : {r : Relay} → Run r → IsSound r
Run-IsSound begin = record { down = ([], refl, refl); up = ([], refl, refl); counted = refl }
Run-IsSound (next run step) = Step-IsSound step (Run-IsSound run)

room : (c : Copier) (errors : ℕ) → (ended c ≡ 0 → errors < 2) → (errors < 2) ⊎ (c ≡ finished)
room reading errors h = inl (h refl)
room (writing m) errors h = inl (h refl)
room finished errors h = inr refl

direction-room :
    (side : Side) (r : Relay) → IsSound r → (r.errors < 2) ⊎ ((direction side r).copier ≡ finished)
direction-room downward r h =
    room r.down.copier r.errors (λ running. omega (arith, h.counted, ended-le r.up.copier))
direction-room upward r h =
    room r.up.copier r.errors (λ running. omega (arith, h.counted, ended-le r.down.copier))

-- However the two goroutines and the handler interleave, each direction writes what it reads, unchanged and
-- in the same order, and misses at most the one message that it holds or could not write. A goroutine
-- that has not ended finds room in the channel for its error, so that none is left blocked, also after
-- the handler has returned.
pub Run-delivers :
    {r : Relay}
    → Run r
    → (side : Side)
    → IsFaithful (direction side r) × ((r.errors < 2) ⊎ ((direction side r).copier ≡ finished))
Run-delivers {r} run side =
    (faithful side r (Run-IsSound run), direction-room side r (Run-IsSound run))
