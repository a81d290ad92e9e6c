-- ===== src/Rules/File/Lines.antt =====
-- Lines of a text, and numbers on them.
use deep_packet_analyzer.Base.{
  ℕ, ◌+◌, ◌-◌, ◌*◌, ◌^◌, ◌<◌, ◌≡◌, ◌≢◌, refl, sym, ap, ◌∙◌, List, [], ◌∷◌, ◌++◌, append_assoc,
  append-nil, arith, All, Bytes, IsDigit, show_nat, show_nat-cases, read-show_nat, ok,
}
use deep_packet_analyzer.Rules.File.{
  put_lines, split_lines, decimal, stoi_u16, read_sign, read_digits, skip_spaces,
}

-- A text that stands on one line.
abbrev pub IsLine : Bytes → Type 0
IsLine l = All (λ (c : ℕ). c ≢ b'\n') l

split_line :
    (line l rest : Bytes)
    → IsLine l
    → split_lines line (l ++ (b'\n' ∷ rest)) ≡ (line ++ l) ∷ split_lines [] rest
unfolding split_lines
split_line [] [] rest h = refl
split_line (c ∷ cs) [] rest h = ap (λ t. (c ∷ t) ∷ split_lines [] rest) (sym (append-nil cs))
split_line [] (b ∷ l) rest h = ground (arith, split_line (b ∷ []) l rest h.1)
split_line (c ∷ cs) (b ∷ l) rest h =
    ground (arith, split_line (c ∷ (cs ++ b ∷ [])) l rest h.1, append_assoc cs (b ∷ []) l)

-- Lines written one after the other are read back.
pub split_lines-put_lines :
    (ls : List Bytes) → All IsLine ls → split_lines [] (put_lines ls []) ≡ ls
unfolding put_lines
split_lines-put_lines [] h = unfold split_lines in refl
split_lines-put_lines (l ∷ ls) h =
    split_line [] l (put_lines ls []) h.0 ∙ ap (◌∷◌ l) (split_lines-put_lines ls h.1)

decimal_step :
    (m c v : ℕ) (rest : Bytes)
    → IsDigit c
    → v ≡ m * 10 + (c - b'0')
    → v < 2 ^ 31
    → decimal m (c ∷ rest) ≡ decimal v rest
unfolding decimal
decimal_step m c v rest d e b = ground arith

decimal-show_nat : (n : ℕ) → n < 2 ^ 31 → decimal 0 (show_nat n) ≡ n
decimal-show_nat n b =
    ap (decimal 0) (sym (append-nil (show_nat n)))
    ∙ read-show_nat decimal decimal_step n [] b
    ∙ unfold decimal in refl

-- A port that was printed is read back.
pub stoi_u16-show_nat : (n : ℕ) → n < 2 ^ 16 → stoi_u16 (show_nat n) ≡ ok n
unfolding stoi_u16 skip_spaces read_sign read_digits
stoi_u16-show_nat n b =
    let (c, cs, e, d) = show_nat-cases n in
    let v : decimal 0 (c ∷ cs) ≡ n = ap (decimal 0) (sym e) ∙ decimal-show_nat n (omega arith) in
    ap (λ t. read_sign (skip_spaces t)) e ∙ ground (arith, v)
