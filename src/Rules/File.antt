-- ===== src/Rules/File.antt =====
-- `saveRules` and `loadRules` of src/rule_manager.cpp on the text of the file.
pub mod Lines
pub mod Entries
pub mod Restored
pub mod Text
pub mod RoundTrip
use deep_packet_analyzer.Base.{
  ℕ, zero, suc, ◌+◌, ◌-◌, ◌*◌, ◌^◌, ◌%◌, Bool, true, false, ◌||◌, ◌&&◌, List, [], ◌∷◌, ◌++◌, map,
  Option, none, some, ltb, leb, ◌==◌, if◌then◌else◌, Bytes, codes, equal, is_digit, show_nat,
  Result, ok, err, invalid_argument, out_of_range, ◌>>=◌,
}
use deep_packet_analyzer.App.{AppType, app_type_to_string, string_to_app_type}
use deep_packet_analyzer.Rules.{
  RuleManager, block_ip_text, block_app, block_domain, block_port, get_blocked_ips,
  get_blocked_apps, get_blocked_domains,
}

-- Each text on a line of its own, and then the rest.
unfoldable pub put_lines : List Bytes → Bytes → Bytes
put_lines [] rest = rest
put_lines (l ∷ ls) rest = l ++ (b'\n' ∷ put_lines ls rest)

abbrev pub ips_header : Bytes
ips_header = codes "[BLOCKED_IPS]"

abbrev pub apps_header : Bytes
apps_header = codes "[BLOCKED_APPS]"

abbrev pub domains_header : Bytes
domains_header = codes "[BLOCKED_DOMAINS]"

abbrev pub ports_header : Bytes
ports_header = codes "[BLOCKED_PORTS]"

-- The lines that `saveRules` writes, in order.
unfoldable pub saved_lines : RuleManager → List Bytes
saved_lines r =
    ips_header
    ∷ (get_blocked_ips r
        ++ ([]
            ∷ apps_header
            ∷ (map app_type_to_string (get_blocked_apps r)
                ++ ([]
                    ∷ domains_header
                    ∷ (get_blocked_domains r
                        ++ ([] ∷ ports_header ∷ map show_nat r.blocked_ports))))))

-- What `saveRules` writes to the file; a file that cannot be opened is left alone.
unfoldable pub save_rules : RuleManager → Bytes
unfolding put_lines
save_rules r = put_lines (saved_lines r) []

-- `std::getline` until the end of the file: a last line without its newline counts if it has a byte.
unfoldable pub split_lines : Bytes → Bytes → List Bytes
split_lines [] [] = []
split_lines (c ∷ cs) [] = (c ∷ cs) ∷ []
split_lines line (b ∷ bs) =
    let rest = split_lines [] bs in
    let longer = split_lines (line ++ b ∷ []) bs in if b == b'\n' then line ∷ rest else longer

abbrev pub is_space : ℕ → Bool
is_space c = c == b' ' || (leb b'\t' c && leb c b'\r')

unfoldable pub skip_spaces : Bytes → Bytes
skip_spaces [] = []
skip_spaces (c ∷ cs) = let rest = skip_spaces cs in if is_space c then rest else c ∷ cs

-- The value of the digits in front.
unfoldable pub decimal : ℕ → Bytes → ℕ
decimal n [] = n
decimal n (c ∷ cs) = let more = decimal (n * 10 + (c - b'0')) cs in if is_digit c then more else n

-- The `int` that was read, cast to `uint16_t`.
abbrev pub to_u16 : Bool → ℕ → ℕ
to_u16 true n = (2 ^ 16 - n % 2 ^ 16) % 2 ^ 16
to_u16 false n = n % 2 ^ 16

abbrev pub in_int : Bool → ℕ → Bool
in_int true n = leb n (2 ^ 31)
in_int false n = ltb n (2 ^ 31)

unfoldable pub read_digits : Bool → Bytes → Result ℕ
unfolding decimal
read_digits negative [] = err invalid_argument
read_digits negative (c ∷ cs) =
    if is_digit c
    then if in_int negative (decimal 0 (c ∷ cs))
      then ok (to_u16 negative (decimal 0 (c ∷ cs)))
      else err out_of_range
    else err invalid_argument

unfoldable pub read_sign : Bytes → Result ℕ
unfolding read_digits
read_sign [] = err invalid_argument
read_sign (c ∷ cs) =
    if c == b'-'
    then read_digits true cs
    else if c == b'+'
    then read_digits false cs
    else read_digits false (c ∷ cs)

-- `static_cast<uint16_t>(std::stoi(line))`.
unfoldable pub stoi_u16 : Bytes → Result ℕ
unfolding skip_spaces read_sign
stoi_u16 line = read_sign (skip_spaces line)

-- The lookup of the application by its name; an unknown name is passed over.
abbrev pub block_named : RuleManager → Option AppType → RuleManager
block_named r none = r
block_named r (some a) = block_app r a

-- What a line means in a section.
unfoldable pub load_entry : Bytes → RuleManager → Bytes → Result RuleManager
load_entry section r line =
    if equal section ips_header
    then block_ip_text r line
    else if equal section apps_header
    then ok (block_named r (string_to_app_type line))
    else if equal section domains_header
    then ok (block_domain r line)
    else if equal section ports_header
    then (do p ← stoi_u16 line; ok (block_port r p))
    else ok r

-- The loop of `loadRules`: an empty line is skipped, and '[' begins a section.
unfoldable pub load_lines : Bytes → RuleManager → List Bytes → Result RuleManager
load_lines section r [] = ok r
load_lines section r ([] ∷ lines) = load_lines section r lines
load_lines section r ((c ∷ cs) ∷ lines) =
    if c == b'['
    then load_lines (c ∷ cs) r lines
    else (do r' ← load_entry section r (c ∷ cs); load_lines section r' lines)

-- `loadRules` on the text of a file that could be opened.
unfoldable pub load_rules : RuleManager → Bytes → Result RuleManager
load_rules r text = load_lines [] r (split_lines [] text)
