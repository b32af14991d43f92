-- ===== src/Api/Devices/Chosen.antt =====
-- Which interface is captured on: the choice at the start, and the switch at run time.
use ge_sensor.Prelude.{
  ◌≡◌, refl, ◌⊎◌, inl, inr, ◌↔◌, sym, subst, true, false, Option, none, some, List, [], ◌∷◌, arith,
  Bool-cases, Option-cases, str_eq_iff, String,
}
use ge_sensor.Api.{AppState}
use ge_sensor.Api.Devices.{
  Device, or_empty, has_device, set_interface, first_present, first_device, resolve_interface,
  interface_preference_order,
}

-- A device of that name is listed.
abbrev pub Listed : String → List Device → Type 0
Listed name [] = ⊥
Listed name (d ∷ devices) = (d.name ≡ name) ⊎ Listed name devices

pub has_device_iff :
    (name : String) (devices : List Device) → (has_device name devices ≡ true) ↔ Listed name devices
unfolding has_device
has_device_iff name [] = ((λ h. cc), (λ h. absurd h))
has_device_iff name (d ∷ devices) =
    let ih = has_device_iff name devices in
    let same = str_eq_iff d.name name in (ground (arith, ih, same), ground (arith, ih, same))

first_present-Listed :
    (names : List String) (devices : List Device) (name : String)
    → first_present names devices ≡ some name
    → Listed name devices
unfolding first_present
first_present-Listed [] devices name h = absurd (cc)
first_present-Listed (n ∷ names) devices name h = elim (Bool-cases (has_device n devices)) [
  | inl e ↦
      let same : n ≡ name = ground (arith, e) in
      subst (λ x. Listed x devices) same ((has_device_iff n devices).0 e)
  | inr e ↦ first_present-Listed names devices name (ground (arith, e))
]

module _ (devices : List Device) (configured : String) where
  resolve_configured :
      has_device configured devices ≡ true
      → resolve_interface (some devices) configured ≡ configured
  unfolding resolve_interface
  resolve_configured e = rw e

  resolve_preferred :
      (name : String)
      → has_device configured devices ≡ false
      → first_present interface_preference_order devices ≡ some name
      → resolve_interface (some devices) configured ≡ name
  unfolding resolve_interface
  resolve_preferred name e o = rw (e, o)

  resolve_first :
      has_device configured devices ≡ false
      → first_present interface_preference_order devices ≡ none
      → resolve_interface (some devices) configured ≡ first_device configured devices
  unfolding resolve_interface
  resolve_first e o = rw (e, o)

-- On a host that lists a device at all, the sensor starts on a device that is listed, and on the
-- configured one if that is.
pub resolve_interface-Listed :
    (d : Device) (devices : List Device) (configured : String)
    → Listed (resolve_interface (some (d ∷ devices)) configured) (d ∷ devices)
      × (Listed configured (d ∷ devices)
          → resolve_interface (some (d ∷ devices)) configured ≡ configured)
resolve_interface-Listed d devices configured = (
  elim (Bool-cases (has_device configured all)) [
    | inl e ↦ chosen (resolve_configured all configured e) ((has_device_iff configured all).0 e)
    | inr e ↦ elim (Option-cases (first_present interface_preference_order all)) [
      | inl o ↦ chosen (resolve_first all configured e o) (inl refl)
      | inr (name, o) ↦
          chosen (resolve_preferred all configured name e o)
            (first_present-Listed interface_preference_order all name o)
    ]
  ],
  (λ h. resolve_configured all configured ((has_device_iff configured all).1 h)),
)
  where
    all : List Device
    all = d ∷ devices

    chosen :
        {name : String}
        → resolve_interface (some (d ∷ devices)) configured ≡ name
        → Listed name (d ∷ devices)
        → Listed (resolve_interface (some (d ∷ devices)) configured) (d ∷ devices)
    chosen eq l = subst (λ n. Listed n (d ∷ devices)) (sym eq) l

-- The switch succeeds exactly for a listed device, which is then captured on after a restart;
-- refused, it changes nothing.
pub set_interface_lem :
    (listed : Option (List Device)) (iface : String) (a : AppState)
    → (((set_interface listed iface a).0 ≡ true) ↔ Listed iface (or_empty listed))
      × (Listed iface (or_empty listed)
          → (set_interface listed iface a).1
            ≡ record a { capture_interface = iface; restart_capture = true })
      × (¬ Listed iface (or_empty listed) → (set_interface listed iface a).1 ≡ a)
unfolding set_interface
set_interface_lem listed iface a =
    let known = has_device_iff iface (or_empty listed) in
    elim (Bool-cases (has_device iface (or_empty listed))) [
      | inl e ↦
          rw (e, set_interface)
            (((λ h. known.0 e), (λ h. refl)), (λ h. refl), (λ h. absurd (h (known.0 e))))
      | inr e ↦
          rw (e, set_interface)
            (((λ h. absurd (cc)), (λ h. cc (known.1 h))), (λ h. cc (known.1 h)), (λ h. refl))
    ]
