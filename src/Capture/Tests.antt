-- ===== src/Capture/Tests.antt =====
-- The loop on two frames from an empty sensor.
use ge_sensor.Prelude.{[], ◌∷◌, Returns}
use ge_sensor.Ring.Window.{new-IsRing}
use ge_sensor.Dissect.Packet.{named}
use ge_sensor.Dissect.Packet.Frames.{
  Mac, Segment, frame_bytes, l4_fields, dissect_packet-frame_bytes,
}
use ge_sensor.Dissect.Metadata.{PacketMetadata}
use ge_sensor.Capture.Gates.{Gated, process_packet-Gated}
use ge_sensor.Capture.{process_packet, process_all}
use ge_sensor.Capture.Sample.{start, start-IsSensor, around}
use ge_sensor.Capture.Safety.{IsSensor, process_all-Returns}

abbrev no_mac : Mac
no_mac = record { a = 0; b = 0; c = 0; d = 0; e = 0; f = 0 }

abbrev scan : Segment
scan = record {
  dst_mac = no_mac;
  src_mac = no_mac;
  total_len = 40;
  ttl = 64;
  src_addr = 0xC0A80164;
  dst_addr = 0x0A000001;
  src_port = 49152;
  dst_port = 80;
  seq = 1;
  ack = 0;
  flags = 0x29;
  window = 0xFFFF;
}

process_all-Returns_example :
    Returns IsSensor (process_all ((around, frame_bytes scan []) ∷ (around, 1 ∷ 2 ∷ []) ∷ []) start)
process_all-Returns_example =
    process_all-Returns ((around, frame_bytes scan []) ∷ (around, 1 ∷ 2 ∷ []) ∷ []) start
      start-IsSensor

abbrev scan_meta : PacketMetadata
scan_meta = named (l4_fields scan []) (dissect_packet-frame_bytes scan []).0

process_packet-Gated_example :
    Returns (Gated around scan_meta start) (process_packet around (frame_bytes scan []) start)
process_packet-Gated_example =
    process_packet-Gated around (frame_bytes scan []) scan_meta start (new-IsRing 1000)
      (dissect_packet-frame_bytes scan []).1
