-- ===== src/Simple/Loop.antt =====
-- The loop of the single-threaded program over the packets of a capture.
use deep_packet_analyzer.Base.{
  ℕ, ◌+◌, ◌^◌, ◌<◌, ◌≡◌, refl, ap, sym, ◌∙◌, Bool, true, false, List, [], ◌∷◌, ◌++◌, append_assoc,
  arith, Bytes, IsBytes, All, All-append, length-append, IsSublist-append, Returns,
}
use deep_packet_analyzer.Pcap.Format.{RawPacket}
use deep_packet_analyzer.Pcap.{write_packet, store32}
use deep_packet_analyzer.Pcap.RoundTrip.{write_packets}
use deep_packet_analyzer.Simple.{BlockingRules, Program, handle_packets}
use deep_packet_analyzer.Simple.Round.{IsRun, count_accepted-cons, nil-IsRun, handle_packet-IsRun}

write_packet-append :
    (little : Bool) (sec usec : ℕ) (p xs ys : Bytes)
    → write_packet little sec usec p (xs ++ ys) ≡ write_packet little sec usec p xs ++ ys
unfolding write_packet store32
write_packet-append true sec usec p xs ys = rw (append_assoc p xs ys) refl
write_packet-append false sec usec p xs ys = rw (append_assoc p xs ys) refl

write_packets-append :
    (little : Bool) (ps qs : List RawPacket)
    → write_packets little (ps ++ qs) ≡ write_packets little ps ++ write_packets little qs
unfolding write_packets write_packet
write_packets-append little [] qs = refl
write_packets-append little (p ∷ ps) qs = rw (write_packets-append little ps qs) (
    write_packet-append little p.header.ts_sec p.header.ts_usec p.bytes (write_packets little ps)
      (write_packets little qs))

IsRun-append :
    (little : Bool) (rules : BlockingRules) (raw : RawPacket) (raws : List RawPacket)
    (st st' st2 : Program)
    → IsRun little rules (raw ∷ []) st st'
    → IsRun little rules raws st' st2
    → IsRun little rules (raw ∷ raws) st st2
IsRun-append little rules raw raws st st' st2 a b = record {
  kept = a.kept ++ b.kept;
  lost = a.lost + b.lost;
  in_order = IsSublist-append a.in_order b.in_order;
  written =
      b.written
      ∙ ap (λ o. o ++ write_packets little b.kept) a.written
      ∙ append_assoc st.output (write_packets little a.kept) (write_packets little b.kept)
      ∙ ap (λ o. st.output ++ o) (sym (write_packets-append little a.kept b.kept));
  total = omega (arith, a.total, b.total);
  passed = omega (arith, a.passed, b.passed, length-append a.kept b.kept);
  dropped = omega (arith, a.dropped, b.dropped);
  accounted = omega (
    arith,
    a.accounted,
    b.accounted,
    count_accepted-cons little raw raws,
    length-append a.kept b.kept,
  );
  clean = All-append _ a.kept b.kept a.clean b.clean;
  checked = λ h. b.checked (a.checked h);
  sticky = λ t h.
      let (k, u) = a.sticky t h in let (l, v) = b.sticky t k in (l, All-append _ a.kept b.kept u v);
}

-- On packets of bytes the loop ends without undefined behaviour. The packets that it forwards are
-- packets of the capture, in their order, written one behind the other to the output with their
-- times and bytes; none has a blocked source address, and none belongs to a flow that was blocked
-- before. A blocked flow stays blocked, and a flow that is not blocked passes the rules. Every
-- packet is counted, and those that are parsed and not skipped are forwarded or dropped, the
-- counters modulo 2 ^ 64.
pub handle_packets-IsRun :
    (little : Bool) (rules : BlockingRules) (raws : List RawPacket) (st : Program)
    → All (λ (raw : RawPacket). IsBytes raw.bytes) raws
    → st.total_packets < 2 ^ 64
    → st.forwarded < 2 ^ 64
    → st.dropped < 2 ^ 64
    → Returns (handle_packets little rules raws st) (IsRun little rules raws st)
unfolding handle_packets
handle_packets-IsRun little rules [] st b m n d = (st, refl, nil-IsRun little rules st m n d)
handle_packets-IsRun little rules (raw ∷ raws) st b m n d =
    let (st', e, h) = handle_packet-IsRun little rules raw st b.0 n d in
    let (st2, f, k) =
      handle_packets-IsRun little rules raws st' b.1 (omega (arith, h.total))
        (omega (arith, h.passed)) (omega (arith, h.dropped)) in
    (st2, rw e f, IsRun-append little rules raw raws st st' st2 h k)
