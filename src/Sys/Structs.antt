-- ===== src/Sys/Structs.antt =====
-- The records of btstack-sys/src/generated/libusb_main_bindings.rs that the program fills in. A
-- pointer is an address, `none` where it is null; a function is known by its name, of a type that
-- the program's part gives.
use btstack_rs.Common.{ℕ, Option}

pub record LinkedItem : Type 0 where
  pub next : Option ℕ

pub record TimerSource (Function : Type 0) : Type 0 where
  pub item : LinkedItem
  pub timeout : ℕ
  pub process : Option Function
  pub context : Option ℕ

pub record PacketCallbackRegistration (Function : Type 0) : Type 0 where
  pub item : LinkedItem
  pub callback : Option Function

pub record ContextCallbackRegistration (Function : Type 0) : Type 0 where
  pub item : Option ℕ
  pub callback : Option Function
  pub context : Option ℕ
