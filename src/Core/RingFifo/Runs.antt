-- ===== src/Core/RingFifo/Runs.antt =====
-- A ring at concrete inputs.
use plexdb.Prelude.{ℕ, ◌≡◌, refl, some, [], ◌∷◌, length, arith}
use plexdb.Core.RingFifo.{RingFifo, push_front}
use plexdb.Core.RingFifo.Laws.{Holds, Popped, push_front-Holds, pop_front-Holds}

-- Three slots, of which the last holds the one value that waits.
abbrev ring : RingFifo ℕ
ring = record { slots = 5 ∷ 6 ∷ 7 ∷ []; head = 2; tail = 0 }

ring-Holds : Holds ring (7 ∷ [])
ring-Holds = record { head = omega arith; tail = omega arith; held = (omega arith, refl, refl) }

abbrev full_ring : RingFifo ℕ
full_ring = record { slots = 5 ∷ 6 ∷ 7 ∷ []; head = 2; tail = 1 }

full_ring-Holds : Holds full_ring (7 ∷ 5 ∷ [])
full_ring-Holds = record {
  head = omega arith;
  tail = omega arith;
  held = (omega arith, refl, (omega arith, refl, refl));
}

push_front-Holds_example :
    (fifo' : RingFifo ℕ) × (push_front ring 8 ≡ some fifo')
    × Holds fifo' (7 ∷ 8 ∷ [])
    × (length fifo'.slots ≡ 3)
push_front-Holds_example = push_front-Holds ring (7 ∷ []) 8 ring-Holds (omega arith)

pop_front-Holds_example : Popped full_ring (7 ∷ 5 ∷ [])
pop_front-Holds_example = pop_front-Holds full_ring (7 ∷ 5 ∷ []) full_ring-Holds
