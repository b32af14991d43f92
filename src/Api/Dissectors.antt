-- ===== src/Api/Dissectors.antt =====
-- The switches of the dissectors and the lists of dissectors and inputs: src/utils/dashboard.rs.
pub mod Switched
use ge_sensor.Prelude.{
  ℕ, Bool, true, false, ◌||◌, Option, none, some, List, [], ◌∷◌, ◌++◌, if◌then◌else◌, str_eq,
  String,
}
use ge_sensor.Strings.{to_ascii_lowercase}
use ge_sensor.Config.{Config, DissectorConfig, ListenerConfig}
use ge_sensor.Api.{AppState}

-- The assignment that the name leads to. (Unicode's lower case of a text is one of these ASCII names
-- only if its ASCII lower case is.)
unfoldable pub switch : String → Bool → DissectorConfig → Option DissectorConfig
switch name state d =
    if str_eq name "tcp"
    then some (record d { tcp = state })
    else if str_eq name "udp"
    then some (record d { udp = state })
    else if str_eq name "icmp"
    then some (record d { icmp = state })
    else if str_eq name "dns"
    then some (record d { dns = state })
    else if str_eq name "http"
    then some (record d { http = state })
    else if str_eq name "tls"
    then some (record d { tls = state })
    else if str_eq name "ntp"
    then some (record d { ntp = state })
    else if str_eq name "dhcp"
    then some (record d { dhcp = state })
    else if str_eq name "modbus"
    then some (record d { modbus = state })
    else if str_eq name "dnp3"
    then some (record d { dnp3 = state })
    else if str_eq name "bacnet" || str_eq name "bacnet/ip"
    then some (record d { bacnet = state })
    else if str_eq name "ethernet/ip" || str_eq name "enip"
    then some (record d { ethernet_ip = state })
    else none

abbrev pub with_dissectors : DissectorConfig → AppState → AppState
with_dissectors d a = record a {
  sensor = record a.sensor { config = record a.sensor.config { dissectors = d } };
}

unfoldable pub toggle_dissector : String → Bool → AppState → Bool × AppState
toggle_dissector name state a =
    elim (switch (to_ascii_lowercase name) state a.sensor.config.dissectors) [
      | none ↦ (false, a)
      | some d ↦ (true, with_dissectors d a)
    ]

pub record DissectorInfo : Type 0 where
  pub name : String
  pub category : String
  pub enabled : Bool
  pub port : String

abbrev pub info : String → String → Bool → String → DissectorInfo
info name category enabled port = record {
  name = name;
  category = category;
  enabled = enabled;
  port = port;
}

unfoldable pub build_dissector_list : Config → List DissectorInfo
build_dissector_list cfg =
    let d = cfg.dissectors in
    info "TCP" "Transport" d.tcp "—"
    ∷ info "UDP" "Transport" d.udp "—"
    ∷ info "ICMP" "Network" d.icmp "—"
    ∷ info "DNS" "Application" d.dns "53"
    ∷ info "HTTP" "Application" d.http "80"
    ∷ info "TLS" "Application" d.tls "443"
    ∷ info "NTP" "Network" d.ntp "123"
    ∷ info "DHCP" "Network" d.dhcp "67/68"
    ∷ info "Modbus TCP" "OT/SCADA" d.modbus "502"
    ∷ info "DNP3" "OT/SCADA" d.dnp3 "20000"
    ∷ info "BACnet/IP" "Building Mgmt" d.bacnet "47808"
    ∷ []

pub record InputInfo : Type 0 where
  pub name : String
  pub protocol : String
  pub port : ℕ
  pub enabled : Bool
  pub status : String

-- An input that is configured, whether or not it is enabled.
abbrev pub input_info : String → Option ListenerConfig → List InputInfo
input_info name none = []
input_info name (some l) =
    record {
      name = name;
      protocol = l.protocol;
      port = l.port;
      enabled = l.enabled;
      status = if l.enabled then "listening" else "disabled";
    }
    ∷ []

unfoldable pub build_input_list : Config → List InputInfo
build_input_list cfg =
    input_info "Syslog" cfg.inputs.syslog
    ++ (input_info "NetFlow v5" cfg.inputs.netflow
        ++ (input_info "SNMP Traps" cfg.inputs.snmp
            ++ (input_info "IPFIX/NetFlow v9" cfg.inputs.ipfix
                ++ (input_info "Windows Event Fwd" cfg.inputs.wef
                    ++ input_info "HTTP Webhook" cfg.inputs.http_webhook))))
