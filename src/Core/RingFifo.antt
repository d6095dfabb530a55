-- ===== src/Core/RingFifo.antt =====
-- core/base/containers.cppm: RingFifo, a queue in an array of fixed length. The length N is that of
-- the list of slots, and `none` is a failed assertion.
pub mod Laws
mod Runs
use plexdb.Prelude.{
  ℕ, ◌+◌, ◌-◌, ◌%◌, Bool, Option, none, some, List, ◌==◌, leb, if◌then◌else◌, length, get_elem?,
  set, replicate,
}

module _ {ℓ} (A : Type ℓ) where
  pub record RingFifo : Type ℓ where
    pub slots : List A
    pub head : ℕ
    pub tail : ℕ

module _ {ℓ} {A : Type ℓ} where
  -- T slots[N]{}
  abbrev pub new_fifo : ℕ → A → RingFifo A
  new_fifo n a = record { slots = replicate n a; head = 0; tail = 0 }

  abbrev pub empty : RingFifo A → Bool
  empty fifo = fifo.head == fifo.tail

  abbrev pub count : RingFifo A → ℕ
  count fifo =
      if leb fifo.head fifo.tail
      then fifo.tail - fifo.head
      else length fifo.slots - fifo.head + fifo.tail

  abbrev pub full : RingFifo A → Bool
  full fifo = (fifo.tail + 1) % length fifo.slots == fifo.head

  abbrev pub front : RingFifo A → Option A
  front fifo = if empty fifo then none else get_elem? fifo.slots fifo.head

  unfoldable pub push_front : RingFifo A → A → Option (RingFifo A)
  push_front fifo value =
      if full fifo
      then none
      else some (record fifo {
        slots = set fifo.slots fifo.tail value;
        tail = (fifo.tail + 1) % length fifo.slots;
      })

  unfoldable pub pop_front : RingFifo A → Option (A × RingFifo A)
  pop_front fifo = if empty fifo then none else elim (get_elem? fifo.slots fifo.head) [
    | none ↦ none
    | some value ↦ some (value, record fifo { head = (fifo.head + 1) % length fifo.slots })
  ]

  abbrev pub clear : RingFifo A → RingFifo A
  clear fifo = record fifo { head = 0; tail = 0 }
