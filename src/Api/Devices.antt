-- ===== src/Api/Devices.antt =====
-- The capture devices: `list_interfaces` and `set_interface` of src/utils/dashboard.rs, and the
-- choice and the listing of src/main.rs. What `pcap::Device::list` returns is an argument, `none`
-- where it fails.
pub mod Chosen
use Prim.Native.Char.{Char, code}
use ge_sensor.Prelude.{
  ℕ, suc, ◌+◌, Bool, true, false, ◌&&◌, ◌||◌, Option, none, some, List, [], ◌∷◌, ◌++◌, map, ◌==◌,
  if◌then◌else◌, str_eq, String,
}
use ge_sensor.Strings.{concat, decimal, map_chars}
use ge_sensor.Api.{AppState}

pub record Device : Type 0 where
  pub name : String
  pub desc : Option String

pub record InterfaceInfo : Type 0 where
  pub name : String
  pub description : String
  pub active : Bool

abbrev pub or_empty : {A : Type 0} → Option (List A) → List A
or_empty none = []
or_empty (some xs) = xs

abbrev pub text_or_empty : Option String → String
text_or_empty none = ""
text_or_empty (some s) = s

abbrev pub interface_info : String → Device → InterfaceInfo
interface_info current d = record {
  name = d.name;
  description = text_or_empty d.desc;
  active = str_eq d.name current;
}

unfoldable pub list_interfaces : Option (List Device) → AppState → List InterfaceInfo
list_interfaces devices a = map (interface_info a.capture_interface) (or_empty devices)

unfoldable pub has_device : String → List Device → Bool
has_device name [] = false
has_device name (d ∷ devices) = str_eq d.name name || has_device name devices

unfoldable pub set_interface : Option (List Device) → String → AppState → Bool × AppState
set_interface devices iface a =
    if has_device iface (or_empty devices)
    then (true, record a { capture_interface = iface; restart_capture = true })
    else (false, a)

-- `interface_preference_order` of a build for Linux.
abbrev pub interface_preference_order : List String
interface_preference_order =
    "eth0" ∷ "ens33" ∷ "ens160" ∷ "enp0s3" ∷ "enp0s8" ∷ "enp0s31f6" ∷ "wlan0" ∷ "wlp0s20f3"
    ∷ "wlp2s0" ∷ "wlo1" ∷ "lo" ∷ []

unfoldable pub first_present : List String → List Device → Option String
unfolding has_device
first_present [] devices = none
first_present (name ∷ names) devices =
    let rest = first_present names devices in if has_device name devices then some name else rest

abbrev pub first_device : String → List Device → String
first_device configured [] = configured
first_device configured (d ∷ devices) = d.name

unfoldable pub resolve_interface : Option (List Device) → String → String
unfolding has_device first_present
resolve_interface listed configured =
    let devices = or_empty listed in
    if has_device configured devices
    then configured
    else elim (first_present interface_preference_order devices) [
      | some preferred ↦ preferred
      | none ↦ first_device configured devices
    ]

abbrev pub blank : Char → Char
blank c = if code c == 9 || code c == 10 || code c == 13 then " " else c

-- The lines that `print_pcap_interfaces` prints, numbered from `i + 1`.
unfoldable pub device_lines : ℕ → List Device → List String
device_lines i [] = []
device_lines i (d ∷ devices) =
    concat (decimal (i + 1) ∷ "\t" ∷ d.name ∷ "\t" ∷ map_chars blank (text_or_empty d.desc) ∷ [])
    ∷ device_lines (i + 1) devices
