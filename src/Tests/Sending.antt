-- ===== src/Tests/Sending.antt =====
-- A packet of src/common/proto.c on its way through the loops of src/common/net.c.
use tcg_final_project.Prelude.{◌≡◌, refl, [], ◌∷◌, ◌++◌, some}
use tcg_final_project.Net.{on_write, write_loop}
use tcg_final_project.Net.Sending.{
  wrote_all, write_whole, Sent, proto_send-Sent, proto_recv-proto_send,
}
use tcg_final_project.Proto.Checksum.{proto_checksum16, fold_carries, add_bytes}
use tcg_final_project.Proto.Packet.{packet, layout, proto_send, proto_recv}
use tcg_final_project.Proto.Opcode.{op_play_card}
use tcg_final_project.Tests.Packets.{
  Wire, connection, pouring, third_card, third_card-IsSendable, on_the_wire,
}

-- A packet goes out byte by byte, two retries long, and comes in on the other side.
third_card-sent : (proto_send (write_whole pouring) (2, []) op_play_card third_card).0 ≡ 0
unfolding proto_send packet write_loop on_write wrote_all layout proto_checksum16 fold_carries
    add_bytes
third_card-sent = refl

proto_send-Sent_example :
    Sent pouring
      (2, [])
      op_play_card
      third_card
      (proto_send (write_whole pouring) (2, []) op_play_card third_card)
proto_send-Sent_example = proto_send-Sent pouring (2, []) op_play_card third_card

third_card-arrived :
    (proto_send (write_whole pouring) (2, []) op_play_card third_card).1.1 ++ 0 ∷ 9 ∷ []
    ≡ [] ++ (on_the_wire ++ 0 ∷ 9 ∷ [])
unfolding proto_send packet write_loop on_write wrote_all layout proto_checksum16 fold_carries
    add_bytes
third_card-arrived = refl

proto_recv-proto_send_example :
    (t' : Wire) × (proto_recv connection.readn (4, on_the_wire ++ 0 ∷ 9 ∷ []) 1
      ≡ some (op_play_card, third_card, t'))
    × (connection.pending t' ≡ 0 ∷ 9 ∷ [])
proto_recv-proto_send_example =
    proto_recv-proto_send pouring connection (2, []) (4, on_the_wire ++ 0 ∷ 9 ∷ []) 1 op_play_card
      third_card (0 ∷ 9 ∷ []) third_card-IsSendable third_card-sent third_card-arrived
