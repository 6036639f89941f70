-- ===== src/Transport/Nusb.antt =====
-- What the transport relies on of nusb's transfer queues: an interface with the documented effect of
-- each operation on the number of pending transfers.
use btstack_rs.Common.{ℕ, ◌+◌, ◌-◌, ◌<◌, ◌≡◌, refl, List, arith}

-- `Ok`, `TransferError::Stall`, and every other `TransferError`.
pub data Status : Type 0 where
  ok stall failed : Status

-- `ControlOut` with its control type and recipient.
pub data ControlType : Type 0 where
  standard class vendor : ControlType

pub data Recipient : Type 0 where
  device interface endpoint other : Recipient

pub record ControlOut : Type 0 where
  pub control_type : ControlType
  pub recipient : Recipient
  pub request : ℕ
  pub value : ℕ
  pub index : ℕ
  pub data_ : List ℕ

pub record Completion : Type 0 where
  pub status : Status
  pub bytes : List ℕ

-- `next_complete q` is the queue after the call has returned a completion.
pub record TransferQueue : Type 1 where
  pub Queue : Type 0
  pub pending : Queue → ℕ
  pub submit : Queue → ℕ → Queue
  pub next_complete : Queue → Queue
  pub clear_halt : Queue → Queue
  pub cancel_all : Queue → Queue
  pub pending-submit : (q : Queue) (size : ℕ) → pending (submit q size) ≡ pending q + 1
  pub pending-next_complete :
      (q : Queue) → 0 < pending q → pending (next_complete q) + 1 ≡ pending q
  pub pending-clear_halt : (q : Queue) → pending (clear_halt q) ≡ pending q
  pub pending-cancel_all : (q : Queue) → pending (cancel_all q) ≡ pending q

pub next_complete-counter : (n : ℕ) → 0 < n → n - 1 + 1 ≡ n
next_complete-counter n h = omega arith

-- A counter meets the interface.
abbrev pub counting_queue : TransferQueue
counting_queue = record {
  Queue = ℕ;
  pending = λ n. n;
  submit = λ n _. n + 1;
  next_complete = λ n. n - 1;
  clear_halt = λ n. n;
  cancel_all = λ n. n;
  pending-submit = λ n size. refl;
  pending-next_complete = next_complete-counter;
  pending-clear_halt = λ n. refl;
  pending-cancel_all = λ n. refl;
}
