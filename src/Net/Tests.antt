-- ===== src/Net/Tests.antt =====
-- Addresses read and shown.
use ge_sensor.Prelude.{◌≡◌, refl, none, some}
use ge_sensor.Net.{v4, v6}
use ge_sensor.Net.Display.{show_ip}
use ge_sensor.Net.Parse.{parse_ip}

shown_v4 : show_ip (v4 0xC0A80164) ≡ "192.168.1.100"
unfolding show_ip
shown_v4 = refl

shown_v6 : show_ip (v6 0x20010DB8000000000000000000000001) ≡ "2001:db8::1"
unfolding show_ip
shown_v6 = refl

shown_mapped : show_ip (v6 0xFFFF01020304) ≡ "::ffff:1.2.3.4"
unfolding show_ip
shown_mapped = refl

read_v4 : parse_ip "10.0.0.1" ≡ some (v4 0x0A000001)
unfolding parse_ip
read_v4 = refl

read_v6 : parse_ip "2001:db8::1" ≡ some (v6 0x20010DB8000000000000000000000001)
unfolding parse_ip
read_v6 = refl

read_mapped : parse_ip "::ffff:1.2.3.4" ≡ some (v6 0xFFFF01020304)
unfolding parse_ip
read_mapped = refl

leading_zero : parse_ip "10.0.0.01" ≡ none
unfolding parse_ip
leading_zero = refl

no_colon : parse_ip "1:2:3" ≡ none
unfolding parse_ip
no_colon = refl
