-- ===== src/Transport/Pipeline/Samples.antt =====
-- Requests and steps for the runs that the tests make.
use btstack_rs.Common.{ℕ, zero, suc, true, false, some, List, [], ◌∷◌}
use btstack_rs.Transport.Nusb.{ok}
use btstack_rs.Transport.Pipeline.{Event, writes}
use btstack_rs.Transport.Pipeline.Send.{Request}
use btstack_rs.Transport.Pipeline.Writer.{Answers}

abbrev pub send_acl : Request
send_acl = record { packet_type = 2; packet = 7 ∷ []; spurious = false }

abbrev pub send_command : Request
send_command = record { packet_type = 1; packet = 3 ∷ 12 ∷ 0 ∷ []; spurious = false }

abbrev pub answers : Answers
answers = record { control_out = λ _. true; completion = some ok }

abbrev pub write_times : ℕ → List Event
write_times zero = []
write_times (suc n) = writes answers ∷ write_times n
