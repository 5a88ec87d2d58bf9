-- ===== src/NatPacket/Checksum.antt =====
-- The IP checksum of a translated packet.
use osnt_plus.Packet.{Packet}
