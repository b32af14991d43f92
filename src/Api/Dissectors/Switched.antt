-- ===== src/Api/Dissectors/Switched.antt =====
-- What switching a dissector does to the frames that the capture loop inspects: src/utils/dashboard.rs
-- with src/main.rs.
use ge_sensor.Prelude.{
  ◌≡◌, refl, ◌∙◌, ap, sym, Bool, true, false, ◌||◌, Option, none, some, arith, if◌then◌else◌,
  str_eq, String,
}
use ge_sensor.Strings.{to_ascii_lowercase}
use ge_sensor.Config.{DissectorConfig}
use ge_sensor.Capture.{is_enabled}
use ge_sensor.Api.{AppState}
use ge_sensor.Api.Dissectors.{switch, with_dissectors, toggle_dissector}

pub data Switch : Type 0 where
  tcp udp icmp dns http tls ntp dhcp modbus dnp3 bacnet ethernet_ip : Switch

abbrev pub same : Switch → Switch → Bool
same tcp tcp = true
same udp udp = true
same icmp icmp = true
same dns dns = true
same http http = true
same tls tls = true
same ntp ntp = true
same dhcp dhcp = true
same modbus modbus = true
same dnp3 dnp3 = true
same bacnet bacnet = true
same ethernet_ip ethernet_ip = true
same _ _ = false

abbrev pub position : Switch → DissectorConfig → Bool
position tcp d = d.tcp
position udp d = d.udp
position icmp d = d.icmp
position dns d = d.dns
position http d = d.http
position tls d = d.tls
position ntp d = d.ntp
position dhcp d = d.dhcp
position modbus d = d.modbus
position dnp3 d = d.dnp3
position bacnet d = d.bacnet
position ethernet_ip d = d.ethernet_ip

abbrev turned : Switch → Bool → DissectorConfig → DissectorConfig
turned tcp state d = record d { tcp = state }
turned udp state d = record d { udp = state }
turned icmp state d = record d { icmp = state }
turned dns state d = record d { dns = state }
turned http state d = record d { http = state }
turned tls state d = record d { tls = state }
turned ntp state d = record d { ntp = state }
turned dhcp state d = record d { dhcp = state }
turned modbus state d = record d { modbus = state }
turned dnp3 state d = record d { dnp3 = state }
turned bacnet state d = record d { bacnet = state }
turned ethernet_ip state d = record d { ethernet_ip = state }

-- The switch that a name stands for.
abbrev pub named : String → Option Switch
named name =
    if str_eq name "tcp"
    then some tcp
    else if str_eq name "udp"
    then some udp
    else if str_eq name "icmp"
    then some icmp
    else if str_eq name "dns"
    then some dns
    else if str_eq name "http"
    then some http
    else if str_eq name "tls"
    then some tls
    else if str_eq name "ntp"
    then some ntp
    else if str_eq name "dhcp"
    then some dhcp
    else if str_eq name "modbus"
    then some modbus
    else if str_eq name "dnp3"
    then some dnp3
    else if str_eq name "bacnet" || str_eq name "bacnet/ip"
    then some bacnet
    else if str_eq name "ethernet/ip" || str_eq name "enip"
    then some ethernet_ip
    else none

-- The switch that a protocol depends on, if any.
abbrev pub governor : String → Option Switch
governor proto =
    if str_eq proto "tcp" || str_eq proto "tcp_truncated"
    then some tcp
    else if str_eq proto "udp"
    then some udp
    else if str_eq proto "icmp"
    then some icmp
    else if str_eq proto "dns"
    then some dns
    else if str_eq proto "http"
    then some http
    else if str_eq proto "tls"
    then some tls
    else if str_eq proto "ntp"
    then some ntp
    else if str_eq proto "dhcp"
    then some dhcp
    else if str_eq proto "modbus"
    then some modbus
    else if str_eq proto "dnp3"
    then some dnp3
    else if str_eq proto "bacnet"
    then some bacnet
    else if str_eq proto "enip"
    then some ethernet_ip
    else if str_eq proto "quic"
    then some udp
    else none

pub allowed : Option Switch → DissectorConfig → Bool
allowed none d = true
allowed (some s) d = position s d

allowed_if :
    (d : DissectorConfig) (b : Bool) (x y : Option Switch)
    → allowed (if b then x else y) d ≡ (if b then allowed x d else allowed y d)
allowed_if d true x y = refl
allowed_if d false x y = refl

allowed-some : (d : DissectorConfig) (s : Switch) → allowed (some s) d ≡ position s d
unfolding allowed
allowed-some d s = refl

allowed-none : (d : DissectorConfig) → allowed none d ≡ true
unfolding allowed
allowed-none d = refl

is_enabled-allowed :
    (d : DissectorConfig) (proto : String) → is_enabled d proto ≡ allowed (governor proto) d
unfolding is_enabled
is_enabled-allowed d proto = simp (allowed_if, allowed-some, allowed-none)

position_turned :
    (s t : Switch) (state : Bool) (d : DissectorConfig)
    → position t (turned s state d) ≡ (if same s t then state else position t d)
position_turned s t state d = ground arith

turn : Bool → DissectorConfig → Option Switch → Option DissectorConfig
turn state d none = none
turn state d (some s) = some (turned s state d)

turn_if :
    (state : Bool) (d : DissectorConfig) (b : Bool) (x y : Option Switch)
    → turn state d (if b then x else y) ≡ (if b then turn state d x else turn state d y)
turn_if state d true x y = refl
turn_if state d false x y = refl

turn-some :
    (state : Bool) (d : DissectorConfig) (s : Switch)
    → turn state d (some s) ≡ some (turned s state d)
unfolding turn
turn-some state d s = refl

turn-none : (state : Bool) (d : DissectorConfig) → turn state d none ≡ none
unfolding turn
turn-none state d = refl

switch_named :
    (name : String) (state : Bool) (d : DissectorConfig)
    → switch name state d ≡ turn state d (named name)
unfolding switch
switch_named name state d = simp (turn_if, turn-some, turn-none)

-- Whether a protocol is inspected once the switch `s` stands at `state`.
pub after_switch : Switch → Bool → Option Switch → Bool → Bool
after_switch s state none before = true
after_switch s state (some t) before = if same s t then state else before

after_turn :
    (s : Switch) (state : Bool) (d : DissectorConfig) (t : Option Switch)
    → allowed t (turned s state d) ≡ after_switch s state t (allowed t d)
unfolding allowed after_switch
after_turn s state d none = refl
after_turn s state d (some t) = position_turned s t state d

toggle_known :
    (name : String) (state : Bool) (a : AppState) (s : Switch)
    → named (to_ascii_lowercase name) ≡ some s
    → toggle_dissector name state a
      ≡ (true, with_dissectors (turned s state a.sensor.config.dissectors) a)
unfolding toggle_dissector turn
toggle_known name state a s e =
    let d = a.sensor.config.dissectors in
    let found : switch (to_ascii_lowercase name) state d ≡ some (turned s state d) =
      switch_named (to_ascii_lowercase name) state d ∙ ap (turn state d) e in
    rw (found, toggle_dissector)

toggle_unknown :
    (name : String) (state : Bool) (a : AppState)
    → named (to_ascii_lowercase name) ≡ none
    → toggle_dissector name state a ≡ (false, a)
unfolding toggle_dissector turn
toggle_unknown name state a e =
    let d = a.sensor.config.dissectors in
    let found : switch (to_ascii_lowercase name) state d ≡ none =
      switch_named (to_ascii_lowercase name) state d ∙ ap (turn state d) e in
    rw (found, toggle_dissector)

-- Switching a dissector on or off by one of the names that are known, in any case, succeeds, and
-- then the loop inspects the protocols of that switch exactly if it was switched on, those of every
-- other switch as before, and those of none always. By any other name it fails, and nothing changes.
pub toggle_dissector-is_enabled :
    (name : String) (state : Bool) (a : AppState)
    → ((s : Switch)
        → named (to_ascii_lowercase name) ≡ some s
        → ((toggle_dissector name state a).0 ≡ true)
          × ((proto : String)
              → is_enabled (toggle_dissector name state a).1.sensor.config.dissectors proto
                ≡ after_switch s state
                    (governor proto)
                    (is_enabled a.sensor.config.dissectors proto)))
      × (named (to_ascii_lowercase name) ≡ none → toggle_dissector name state a ≡ (false, a))
toggle_dissector-is_enabled name state a = (
  (λ s e.
      let done = toggle_known name state a s e in
      (
        ap (λ r. r.0) done,
        (λ proto.
            let d = a.sensor.config.dissectors in
            ap (λ r. is_enabled r.1.sensor.config.dissectors proto) done
            ∙ (is_enabled-allowed (turned s state d) proto
                ∙ (after_turn s state d (governor proto)
                    ∙ sym (
                        ap (after_switch s state (governor proto)) (is_enabled-allowed d proto))))),
      )),
  (λ e. toggle_unknown name state a e),
)
