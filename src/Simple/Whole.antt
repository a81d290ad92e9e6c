-- ===== src/Simple/Whole.antt =====
-- The single-threaded program from the input file to the output file.
use deep_packet_analyzer.Base.{
  ℕ, suc, ◌+◌, ◌≡◌, inl, inr, refl, ap, subst, sym, ◌∙◌, Bool, true, false, List, [], ◌∷◌, ◌++◌,
  map, Option, none, some, length, arith, Bytes, IsBytes, All, All-IsSublist, All-imp, ok, Returns,
  Option-cases,
}
use deep_packet_analyzer.Pcap.Format.{PcapGlobalHeader, RawPacket}
use deep_packet_analyzer.Pcap.{PcapReader, open_reader, read_packets, write_header, write_packet}
use deep_packet_analyzer.Pcap.RoundTrip.{IsCaptured, IsHeader, write_packets, read_packets-capture}
use deep_packet_analyzer.Pcap.Contents.{
  IsPacket, IsOpened, read_packets-IsPacket, open_reader-IsOpened,
}
use deep_packet_analyzer.Simple.{BlockingRules, Program, start, run}
use deep_packet_analyzer.Simple.Round.{IsRun}
use deep_packet_analyzer.Simple.Loop.{handle_packets-IsRun}

-- A packet as the output has it: with the length of its bytes twice.
abbrev pub rewritten : RawPacket → RawPacket
rewritten p = record {
  header = record {
    ts_sec = p.header.ts_sec;
    ts_usec = p.header.ts_usec;
    incl_len = length p.bytes;
    orig_len = length p.bytes;
  };
  bytes = p.bytes;
}

write_header-append :
    (little : Bool) (h : PcapGlobalHeader) (rest : Bytes)
    → write_header little h [] ++ rest ≡ write_header little h rest
unfolding write_header
write_header-append true h rest = refl
write_header-append false h rest = refl

write_packets-rewritten :
    (little : Bool) (ps : List RawPacket)
    → write_packets little ps ≡ write_packets little (map rewritten ps)
unfolding write_packets
write_packets-rewritten little [] = refl
write_packets-rewritten little (p ∷ ps) =
    ap (write_packet little p.header.ts_sec p.header.ts_usec p.bytes)
      (write_packets-rewritten little ps)

rewritten-IsCaptured :
    (snaplen : ℕ) (ps : List RawPacket)
    → All (IsPacket false snaplen) ps
    → All (IsCaptured snaplen) (map rewritten ps)
rewritten-IsCaptured snaplen [] h = tt
rewritten-IsCaptured snaplen (p ∷ ps) (((l, m, n), b, t), h) = (
  record { sec = (t refl).0; usec = (t refl).1; incl = refl; orig = refl; short = m; snapped = n },
  rewritten-IsCaptured snaplen ps h,
)

-- The packets of a file.
abbrev pub IsReadBack : Bool → Bytes → List RawPacket → Type 0
IsReadBack little file ps =
    (r : PcapReader) × (open_reader little (some file) ≡ some r)
    × (read_packets (suc (length ps)) little r ≡ ok ps)

output-IsReadBack :
    (little : Bool) (h : PcapGlobalHeader) (ps : List RawPacket)
    → IsHeader h
    → All (IsPacket false h.snaplen) ps
    → IsReadBack little (write_header little h [] ++ write_packets little ps) (map rewritten ps)
output-IsReadBack little h ps v k =
    let (r, e, a, b, c, d, f) =
      read_packets-capture little little h (map rewritten ps) v
        (rewritten-IsCaptured h.snaplen ps k) in
    (
      r,
      ap (λ o. open_reader little (some o))
            (write_header-append little h (write_packets little ps)
              ∙ ap (write_header little h) (write_packets-rewritten little ps))
          ∙ e,
      f,
    )

-- What a run of the program on a file comes to.
abbrev pub IsOutcome : Bool → BlockingRules → Bytes → Option Program → Type 0
IsOutcome little rules file none = open_reader little (some file) ≡ none
IsOutcome little rules file (some st) =
    (r : PcapReader) × (raws : List RawPacket) × (run : IsRun little rules raws
      (start (write_header little r.global_header [])) st)
    × (open_reader little (some file) ≡ some r)
    × (read_packets (length r.rest + 1) little r ≡ ok raws)
    × (r.needs_byte_swap ≡ false → IsReadBack little st.output (map rewritten run.kept))

packets-IsOutcome :
    (little : Bool) (rules : BlockingRules) (file : Bytes) (r : PcapReader)
    → open_reader little (some file) ≡ some r
    → IsOpened (some r)
    → Returns (run little rules (some file)) (IsOutcome little rules file)
unfolding run
packets-IsOutcome little rules file r e (b, v) =
    let (raws, f, h) = read_packets-IsPacket (length r.rest + 1) little r (omega arith) b in
    let (st, g, k) =
      handle_packets-IsRun little rules raws (start (write_header little r.global_header []))
        (All-imp (λ p k. k.1) raws h) (omega arith) (omega arith) (omega arith) in
    (
      some st,
      rw (e, run) (rw (f, g) refl),
      (
        r,
        raws,
        k,
        e,
        f,
        λ s.
            subst (λ o. IsReadBack little o (map rewritten k.kept)) (sym k.written)
              (output-IsReadBack little r.global_header k.kept (v s) (
                subst (λ x. All (IsPacket x r.global_header.snaplen) k.kept) s
                  (All-IsSublist (IsPacket r.needs_byte_swap r.global_header.snaplen) k.in_order
                    h))),
      ),
    )

-- On any file of bytes the program ends, and without undefined behaviour if the parser may load
-- 16 and 32 bits at any address. Either the file is no capture, or its packets are read to the last
-- that is whole and handled in order, and the output is the file header and then the packets that
-- were forwarded, in their order. Only where the capture is in the byte order of the machine is the
-- output shown to be a capture again: reading it gives the forwarded packets with their times and
-- bytes.
pub run-IsOutcome :
    (little : Bool) (rules : BlockingRules) (file : Bytes)
    → IsBytes file
    → Returns (run little rules (some file)) (IsOutcome little rules file)
unfolding run
run-IsOutcome little rules file b = elim (Option-cases (open_reader little (some file))) [
  | inl e ↦ (none, rw (e, run) refl, e)
  | inr (r, e) ↦
      packets-IsOutcome little rules file r e
        (subst IsOpened e (open_reader-IsOpened little file b))
]
