-- ===== src/QqClient/Mock/Queue.antt =====
-- The two packet queues of a `MockQQClient`, against the history of its calls.
use mathlib.Core.List.{append-nil, append_assoc}
use nap_cat_qq_rs.Prelude.{
  ◌≡◌, sym, ap, ◌∙◌, Option, some, List, [], ◌∷◌, ◌++◌, Result, ok, err, arith,
}
use nap_cat_qq_rs.QqClient.{Packet, QqClientError}
use nap_cat_qq_rs.QqClient.Mock.{
  MockQqClient, Call, sends, receives, disconnects, injects, send_packet, receive_packet, step, run,
}

-- The packets that the calls inject, in order.
abbrev pub injected : List Call → List Packet
injected [] = []
injected (injects packet ∷ calls) = packet ∷ injected calls
injected (_ ∷ calls) = injected calls

abbrev handed : Result QqClientError (Option Packet) → List Packet
handed (ok (some packet)) = packet ∷ []
handed _ = []

abbrev taken : Packet → Result QqClientError (Unit {0}) → List Packet
taken packet (ok _) = packet ∷ []
taken packet (err _) = []

-- The packets that `receive_packet` hands out over the history.
pub received : MockQqClient → List Call → List Packet
received client [] = []
received client (receives ∷ calls) =
    handed (receive_packet client).0 ++ received (step client receives) calls
received client (call ∷ calls) = received (step client call) calls

-- The packets for which `send_packet` succeeds over the history.
pub accepted : MockQqClient → List Call → List Packet
accepted client [] = []
accepted client (sends packet ∷ calls) =
    taken packet (send_packet packet client).0 ++ accepted (step client (sends packet)) calls
accepted client (call ∷ calls) = accepted (step client call) calls

abbrev pub StaysOpen : List Call → Type 0
StaysOpen [] = Unit {0}
StaysOpen (disconnects ∷ calls) = ⊥
StaysOpen (_ ∷ calls) = StaysOpen calls

receive_step :
    (client : MockQqClient)
    → handed (receive_packet client).0 ++ (step client receives).inbound_packets
      ≡ client.inbound_packets
unfolding receive_packet step
receive_step client = ground arith

-- The calls that leave a queue alone.
abbrev LeavesInbound : Call → Type 0
LeavesInbound receives = ⊥
LeavesInbound disconnects = ⊥
LeavesInbound (injects packet) = ⊥
LeavesInbound _ = Unit {0}

step_inbound :
    (client : MockQqClient) (call : Call)
    → LeavesInbound call
    → (step client call).inbound_packets ≡ client.inbound_packets
unfolding step
step_inbound client receives h = absurd h
step_inbound client disconnects h = absurd h
step_inbound client (injects packet) h = absurd h
step_inbound client _ h = ground arith

abbrev LeavesSent : Call → Type 0
LeavesSent (sends packet) = ⊥
LeavesSent disconnects = ⊥
LeavesSent _ = Unit {0}

step_sent :
    (client : MockQqClient) (call : Call)
    → LeavesSent call
    → (step client call).sent_packets ≡ client.sent_packets
unfolding step
step_sent client (sends packet) h = absurd h
step_sent client disconnects h = absurd h
step_sent client _ h = ground arith

-- Over a history with no `disconnect`, the packets that `receive_packet` handed out, followed by
-- those that still wait, are those that waited at the start, followed by the injected ones, in
-- order.
pub inbound_fifo :
    (client : MockQqClient) (calls : List Call)
    → StaysOpen calls
    → received client calls ++ (run client calls).inbound_packets
      ≡ client.inbound_packets ++ injected calls
unfolding run received
inbound_fifo client [] h = sym (append-nil client.inbound_packets)
inbound_fifo client (receives ∷ calls) h =
    append_assoc (handed (receive_packet client).0) (received (step client receives) calls) _
    ∙ ap (◌++◌ (handed (receive_packet client).0)) (inbound_fifo (step client receives) calls h)
    ∙ sym (append_assoc (handed (receive_packet client).0) _ _)
    ∙ ap (λ (ps : List Packet). ps ++ injected calls) (receive_step client)
inbound_fifo client (injects packet ∷ calls) h =
    inbound_fifo (step client (injects packet)) calls h
    ∙ (unfold step in append_assoc client.inbound_packets (packet ∷ []) _)
inbound_fifo client (disconnects ∷ calls) h = absurd h
inbound_fifo client (call ∷ calls) h =
    inbound_fifo (step client call) calls h
    ∙ ap (λ (ps : List Packet). ps ++ injected calls) (step_inbound client call tt)

send_step :
    (client : MockQqClient) (packet : Packet)
    → (step client (sends packet)).sent_packets
      ≡ client.sent_packets ++ taken packet (send_packet packet client).0
unfolding send_packet step
send_step client packet = ground (arith, append-nil client.sent_packets)

-- Over a history with no `disconnect`, the sent packets are those at the start, followed by the ones
-- for which `send_packet` succeeded, in order.
pub sent_fifo :
    (client : MockQqClient) (calls : List Call)
    → StaysOpen calls
    → (run client calls).sent_packets ≡ client.sent_packets ++ accepted client calls
unfolding run accepted
sent_fifo client [] h = sym (append-nil client.sent_packets)
sent_fifo client (sends packet ∷ calls) h =
    sent_fifo (step client (sends packet)) calls h
    ∙ ap (λ (ps : List Packet). ps ++ accepted (step client (sends packet)) calls)
        (send_step client packet)
    ∙ append_assoc client.sent_packets (taken packet (send_packet packet client).0) _
sent_fifo client (disconnects ∷ calls) h = absurd h
sent_fifo client (call ∷ calls) h =
    sent_fifo (step client call) calls h
    ∙ ap (λ (ps : List Packet). ps ++ accepted (step client call) calls) (step_sent client call tt)
