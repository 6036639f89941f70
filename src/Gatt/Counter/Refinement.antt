-- ===== src/Gatt/Counter/Refinement.antt =====
-- The counter of btstack-gatt/src/gatt_counter.rs does what the abstract one does.
use btstack_rs.Common.{◌%◌, ◌^◌, ◌≡◌, Option, some, List}
use btstack_rs.Gatt.Peripheral.Btstack.{Btstack}
use btstack_rs.Gatt.Counter.{Counter, Printer, Call}
use btstack_rs.Gatt.Counter.Beats.{IsValid}
use btstack_rs.Gatt.Counter.Abstract.{Abstract}

module _ (𝓟 : Printer) where
  -- The code's state stands for the abstract one.
  pub record Shows (c : Counter) (w : Abstract) : Type 0 where
    pub valid : IsValid 𝓟 c
    pub flag : c.notification_enabled ≡ w.subscribed
    pub connection : c.connection_handle ≡ w.connection
    pub counted : c.counter ≡ w.beats % 2 ^ 32

  -- One call returns, and makes the calls that the abstract counter makes.
  abbrev Does : Option (Counter × List Call) → Abstract × List Call → Type 0
  Does o (w, calls) = (c : Counter) × (o ≡ some (c, calls)) × Shows c w
