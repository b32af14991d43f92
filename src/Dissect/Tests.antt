-- ===== src/Dissect/Tests.antt =====
-- The cases of the source's tests of the dissectors, and the theorems at concrete packets.
use ge_sensor.Prelude.{
  ℕ, ◌+◌, ◌<◌, ◌≡◌, refl, false, none, some, List, [], ◌∷◌, ◌++◌, All, arith, leb, if◌then◌else◌,
  length, drop, done, out_of_fuel, Returns, String,
}
use ge_sensor.Text.{from_utf8, is_utf8, decode_byte, lead}
use ge_sensor.Text.{
  trim, trim_by, white_width, white_width_back, starts_with, strip_prefix, newline,
}
use ge_sensor.Text.Laws.{Lacks}
use ge_sensor.Dissect.Http.{http_slash, dissect_http}
use ge_sensor.Dissect.Http.Requests.{
  request_line, request_bytes, request_fields, dissect_http-request_bytes,
}
use ge_sensor.Dissect.Packet.{dissect_packet, named}
use ge_sensor.Dissect.Packet.Bounds.{Sound, dissect_packet-Returns}
use ge_sensor.Dissect.Packet.Frames.{
  Mac, Segment, frame_bytes, l4_fields, dissect_packet-frame_bytes,
}
use ge_sensor.Dissect.Tls.{dissect_tls}
use ge_sensor.Dissect.Tls.Bounds.{Found, dissect_tls-Returns}
use ge_sensor.Dissect.Tls.Hello.{
  make_client_hello_with_sni, named_info, dissect_tls-make_client_hello_with_sni,
}
use ge_sensor.Dissect.Dns.{dissect_dns, parse_dns_name, join}
use ge_sensor.Dissect.Dns.Names.{IsLabel, encode, parse_dns_name-encode}
use ge_sensor.Dissect.Dns.Pointers.{dissect_dns-self_pointer}

abbrev no_mac : Mac
no_mac = record { a = 0; b = 0; c = 0; d = 0; e = 0; f = 0 }

-- The TCP SYN of the source's tests: 192.168.1.100:49152 to 10.0.0.1:80.
abbrev syn : Segment
syn = record {
  dst_mac = no_mac;
  src_mac = no_mac;
  total_len = 40;
  ttl = 64;
  src_addr = 0xC0A80164;
  dst_addr = 0x0A000001;
  src_port = 49152;
  dst_port = 80;
  seq = 1;
  ack = 0;
  flags = 2;
  window = 0xFFFF;
}

dissect_packet-Returns_example :
    Returns (Sound (frame_bytes syn [])) (dissect_packet (frame_bytes syn []))
dissect_packet-Returns_example = dissect_packet-Returns (frame_bytes syn [])

dissect_packet-frame_bytes_example :
    (name : String) × (dissect_packet (frame_bytes syn (1 ∷ 2 ∷ []))
      ≡ done (some (named (l4_fields syn (1 ∷ 2 ∷ [])) name)))
dissect_packet-frame_bytes_example = dissect_packet-frame_bytes syn (1 ∷ 2 ∷ [])

-- "a.io".
abbrev host : List ℕ
host = 97 ∷ 46 ∷ 105 ∷ 111 ∷ []

host_valid : from_utf8 host ≡ some host
unfolding from_utf8 is_utf8 decode_byte lead
host_valid = refl

dissect_tls-Returns_example : Returns Found (dissect_tls (make_client_hello_with_sni host) 0)
dissect_tls-Returns_example = dissect_tls-Returns (make_client_hello_with_sni host) 0

dissect_tls-make_client_hello_with_sni_example :
    dissect_tls (make_client_hello_with_sni host) 0 ≡ done (some (named_info host))
dissect_tls-make_client_hello_with_sni_example =
    dissect_tls-make_client_hello_with_sni host (omega arith) host_valid

-- "www" and "example".
abbrev www : List ℕ
www = 119 ∷ 119 ∷ 119 ∷ []

abbrev example : List ℕ
example = 101 ∷ 120 ∷ 97 ∷ 109 ∷ 112 ∷ 108 ∷ 101 ∷ []

abbrev labels : List (List ℕ)
labels = www ∷ example ∷ []

labels_valid : All IsLabel labels
unfolding from_utf8 is_utf8 decode_byte lead
labels_valid = ((omega arith, omega arith, refl), ((omega arith, omega arith, refl), tt))

abbrev name_bytes : List ℕ
name_bytes = 7 ∷ 7 ∷ 3 ∷ 119 ∷ 119 ∷ 119 ∷ 7 ∷ 101 ∷ 120 ∷ 97 ∷ 109 ∷ 112 ∷ 108 ∷ 101 ∷ 0 ∷ 9 ∷ []

name_starts : drop 2 name_bytes ≡ encode labels ++ (9 ∷ [])
unfolding encode
name_starts = refl

parse_dns_name-encode_example :
    parse_dns_name 3 name_bytes 2
    ≡ done (if leb (length labels) 10 then some (join labels, 2 + length (encode labels)) else none)
parse_dns_name-encode_example =
    parse_dns_name-encode name_bytes 2 labels (9 ∷ []) 3 labels_valid (omega arith) name_starts

-- A query whose name points at itself.
abbrev looping : List ℕ
looping = 0 ∷ 1 ∷ 1 ∷ 0 ∷ 0 ∷ 1 ∷ 0 ∷ 0 ∷ 0 ∷ 0 ∷ 0 ∷ 0 ∷ 0xC0 ∷ 0x0C ∷ 0 ∷ 1 ∷ 0 ∷ 1 ∷ []

dissect_dns-self_pointer_example : dissect_dns 1000 looping 0 ≡ out_of_fuel
dissect_dns-self_pointer_example =
    dissect_dns-self_pointer 1000 looping (omega arith) (omega arith) refl refl

-- A query for the root.
abbrev root_query : List ℕ
root_query = 0 ∷ 1 ∷ 1 ∷ 0 ∷ 0 ∷ 1 ∷ 0 ∷ 0 ∷ 0 ∷ 0 ∷ 0 ∷ 0 ∷ 0 ∷ 0 ∷ 2 ∷ 0 ∷ 1 ∷ []

root_query_small : All (λ b. b < 0xC0) root_query
root_query_small = ground arith

-- Read holding registers, as in the source's tests.
abbrev read_registers : List ℕ
read_registers = 0 ∷ 1 ∷ 0 ∷ 0 ∷ 0 ∷ 6 ∷ 1 ∷ 3 ∷ 0 ∷ 0 ∷ 0 ∷ 10 ∷ []

abbrev dnp3_read : List ℕ
dnp3_read = 0x05 ∷ 0x64 ∷ 8 ∷ 0xC0 ∷ 1 ∷ 0 ∷ 3 ∷ 0 ∷ 0 ∷ 0 ∷ 0xC0 ∷ 1 ∷ 0 ∷ 0 ∷ 0 ∷ []

-- A confirmed WriteProperty request.
abbrev bacnet_write : List ℕ
bacnet_write = 0x81 ∷ 0x0A ∷ 0 ∷ 10 ∷ 1 ∷ 4 ∷ 0 ∷ 5 ∷ 1 ∷ 15 ∷ []

-- "GET", "/a", "HTTP/1.1".
abbrev get_word : List ℕ
get_word = 71 ∷ 69 ∷ 84 ∷ []

abbrev path : List ℕ
path = 47 ∷ 97 ∷ []

abbrev http_version : List ℕ
http_version = 72 ∷ 84 ∷ 84 ∷ 80 ∷ 47 ∷ 49 ∷ 46 ∷ 49 ∷ []

is_request : starts_with http_slash (request_line get_word path http_version) ≡ false
unfolding starts_with strip_prefix
is_request = refl

host_trimmed : trim host ≡ host
unfolding trim trim_by white_width white_width_back
host_trimmed = refl

request_valid :
    from_utf8 (request_bytes get_word path http_version host)
    ≡ some (request_bytes get_word path http_version host)
unfolding from_utf8 is_utf8 decode_byte lead
request_valid = refl

request_one_line : Lacks newline (request_line get_word path http_version)
request_one_line = ground arith

host_one_line : Lacks newline host
host_one_line = ground arith

dissect_http-request_bytes_example :
    dissect_http ((1 ∷ 2 ∷ []) ++ request_bytes get_word path http_version host) 2
    ≡ some (request_fields get_word path http_version host)
dissect_http-request_bytes_example =
    dissect_http-request_bytes get_word path http_version host (1 ∷ 2 ∷ []) (ground arith)
      (ground arith) is_request request_one_line host_one_line host_trimmed request_valid
