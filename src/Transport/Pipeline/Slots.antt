-- ===== src/Transport/Pipeline/Slots.antt =====
-- How many slots the senders hold, and how that changes when one of them moves.
use btstack_rs.Common.{
  ℕ, zero, suc, ◌+◌, ◌≡◌, refl, some, List, [], ◌∷◌, arith, get_elem?, set, replicate,
}
use btstack_rs.Transport.Pipeline.Send.{SendPc, idle, loaded, reserved, undo}

abbrev pub slot : SendPc → ℕ
slot idle = 0
slot (loaded _ _) = 0
slot (reserved _) = 1
slot undo = 1

abbrev pub slots : List SendPc → ℕ
slots [] = 0
slots (pc ∷ pcs) = slot pc + slots pcs

pub slots-set :
    (pcs : List SendPc) (i : ℕ) (pc pc' : SendPc)
    → get_elem? pcs i ≡ some pc
    → slots (set pcs i pc') + slot pc ≡ slots pcs + slot pc'
slots-set [] i pc pc' h = ground arith
slots-set (x ∷ pcs) zero pc pc' h = ground arith
slots-set (x ∷ pcs) (suc i) pc pc' h = omega (arith, slots-set pcs i pc pc' h)

pub slots-replicate : (n : ℕ) → slots (replicate n idle) ≡ 0
slots-replicate zero = refl
slots-replicate (suc n) = omega (arith, slots-replicate n)
