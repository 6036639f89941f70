-- ===== src/Gatt/Peripheral/Types.antt =====
-- The types of btstack-gatt/src/peripheral.rs.
use Prim.Native.Nat.{bit_and, bit_or}
use btstack_rs.Common.{ℕ, Bool, Option, List, [], ◌==◌, as_u16}
use btstack_rs.Common.Dict.{Dict}
use btstack_rs.Sys.Structs.{PacketCallbackRegistration, ContextCallbackRegistration}
use btstack_rs.Sys.{
  att_property_broadcast, att_property_read, att_property_write_without_response,
  att_property_write, att_property_notify, att_property_indicate,
  att_property_authenticated_signed_write, att_property_extended_properties, att_property_dynamic,
  att_security_none, att_security_encrypted, att_security_authenticated, att_security_authorized,
  att_security_authenticated_sc,
}

pub data GattPeripheralError : Type 0 where
  server_already_initialized service_not_found characteristic_not_found : GattPeripheralError

pub data Result (A : Type 0) : Type 0 where
  ok : A → Result A
  err : GattPeripheralError → Result A

-- `?`
infixl 5 ◌>>=◌
abbrev pub ◌>>=◌ : {A B : Type 0} → Result A → (A → Result B) → Result B
ok a >>= f = f a
err e >>= f = err e

-- A 128-bit UUID is its 16 bytes.
pub data GattUuid : Type 0 where
  uuid16 : ℕ → GattUuid
  uuid128 : List ℕ → GattUuid

-- `GattCharacteristicProperties` wraps a `u16`.
pub record Properties : Type 0 where
  pub bits : ℕ

abbrev pub property : ℕ → Properties
property flag = record { bits = as_u16 flag }

abbrev pub read : Properties
read = property att_property_read

abbrev pub write : Properties
write = property att_property_write

abbrev pub write_without_response : Properties
write_without_response = property att_property_write_without_response

abbrev pub notify : Properties
notify = property att_property_notify

abbrev pub indicate : Properties
indicate = property att_property_indicate

abbrev pub broadcast : Properties
broadcast = property att_property_broadcast

abbrev pub authenticated_signed_write : Properties
authenticated_signed_write = property att_property_authenticated_signed_write

abbrev pub extended : Properties
extended = property att_property_extended_properties

abbrev pub dynamic : Properties
dynamic = property att_property_dynamic

abbrev pub empty : Properties
empty = record { bits = 0 }

unfoldable pub contains : Properties → Properties → Bool
contains self other = bit_and self.bits other.bits == other.bits

-- `BitOr::bitor`
unfoldable pub bitor : Properties → Properties → Properties
bitor self rhs = record { bits = bit_or self.bits rhs.bits }

pub data Permissions : Type 0 where
  none encrypted authenticated authorized authenticated_secure_connections : Permissions

unfoldable pub to_btstack_security : Permissions → ℕ
to_btstack_security none = as_u16 att_security_none
to_btstack_security encrypted = as_u16 att_security_encrypted
to_btstack_security authenticated = as_u16 att_security_authenticated
to_btstack_security authorized = as_u16 att_security_authorized
to_btstack_security authenticated_secure_connections = as_u16 att_security_authenticated_sc

pub record CharacteristicSpec : Type 0 where
  pub uuid : GattUuid
  pub properties : Properties
  pub permissions : Permissions
  pub initial_value : List ℕ

pub record ServiceSpec : Type 0 where
  pub uuid : GattUuid
  pub characteristics : List CharacteristicSpec

pub record AdvertisingConfig : Type 0 where
  pub interval_min : ℕ
  pub interval_max : ℕ
  pub adv_type : ℕ
  pub channel_map : ℕ
  pub filter_policy : ℕ
  pub payload : List ℕ

-- `AdvertisingConfig::default`; the field `data` is `payload` here.
abbrev pub default_advertising : AdvertisingConfig
default_advertising = record {
  interval_min = 0x0030;
  interval_max = 0x0030;
  adv_type = 0;
  channel_map = 0x07;
  filter_policy = 0;
  payload = [];
}

pub record PeripheralSpec : Type 0 where
  pub profile_data : List ℕ
  pub services : List ServiceSpec
  pub advertising : AdvertisingConfig

pub record RuntimeCharacteristic : Type 0 where
  pub spec : CharacteristicSpec
  pub value_handle : ℕ
  pub ccc_handle : Option ℕ
  pub value : List ℕ

-- The two callback registrations hold only addresses of functions of the module and are left out.
-- The functions of the module that it hands to BTstack.
pub data Function : Type 0 where
  att_read_callback_of att_write_callback_of packet_handler_of : Function
  run_loop_advertising_update_of : Function

pub record RuntimeState : Type 0 where
  pub characteristics_by_value_handle : Dict RuntimeCharacteristic
  pub ccc_to_value_handle : Dict ℕ
  pub notification_enabled : Dict Bool
  pub connected_handle : Option ℕ
  pub advertising_enabled : Bool
  pub advertising : AdvertisingConfig
  pub hci_event_cb : PacketCallbackRegistration Function
  pub run_loop_callback : ContextCallbackRegistration Function
