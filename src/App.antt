-- ===== src/App.antt =====
-- Application types: the enum of include/types.h, and `appTypeToString` and `sniToAppType` of
-- src/types.cpp.
pub mod Name
pub mod Sni
use Prim.Native.String.{String}
use deep_packet_analyzer.Base.{
  ℕ, ◌≡◌, refl, Bool, true, false, ◌||◌, List, [], ◌∷◌, map, Option, none, some, ◌==◌,
  if◌then◌else◌, Bytes, codes, equal, contains, to_lower,
}

pub data AppType : Type 0 where
  unknown http https dns tls quic google facebook youtube twitter instagram netflix : AppType
  amazon microsoft apple whatsapp telegram tiktok spotify zoom discord github : AppType
  cloudflare app_count : AppType

-- The value of the enumerator.
unfoldable pub app_index : AppType → ℕ
app_index unknown = 0
app_index http = 1
app_index https = 2
app_index dns = 3
app_index tls = 4
app_index quic = 5
app_index google = 6
app_index facebook = 7
app_index youtube = 8
app_index twitter = 9
app_index instagram = 10
app_index netflix = 11
app_index amazon = 12
app_index microsoft = 13
app_index apple = 14
app_index whatsapp = 15
app_index telegram = 16
app_index tiktok = 17
app_index spotify = 18
app_index zoom = 19
app_index discord = 20
app_index github = 21
app_index cloudflare = 22
app_index app_count = 23

unfoldable pub app_eq : AppType → AppType → Bool
unfolding app_index
app_eq a b = app_index a == app_index b

unfoldable pub app_type_to_string : AppType → Bytes
app_type_to_string unknown = codes "Unknown"
app_type_to_string http = codes "HTTP"
app_type_to_string https = codes "HTTPS"
app_type_to_string dns = codes "DNS"
app_type_to_string tls = codes "TLS"
app_type_to_string quic = codes "QUIC"
app_type_to_string google = codes "Google"
app_type_to_string facebook = codes "Facebook"
app_type_to_string youtube = codes "YouTube"
app_type_to_string twitter = codes "Twitter/X"
app_type_to_string instagram = codes "Instagram"
app_type_to_string netflix = codes "Netflix"
app_type_to_string amazon = codes "Amazon"
app_type_to_string microsoft = codes "Microsoft"
app_type_to_string apple = codes "Apple"
app_type_to_string whatsapp = codes "WhatsApp"
app_type_to_string telegram = codes "Telegram"
app_type_to_string tiktok = codes "TikTok"
app_type_to_string spotify = codes "Spotify"
app_type_to_string zoom = codes "Zoom"
app_type_to_string discord = codes "Discord"
app_type_to_string github = codes "GitHub"
app_type_to_string cloudflare = codes "Cloudflare"
app_type_to_string app_count = codes "Unknown"

-- `static_cast<AppType>(i)` for i from 0 up to APP_COUNT.
abbrev pub all_apps : List AppType
all_apps =
    unknown ∷ http ∷ https ∷ dns ∷ tls ∷ quic ∷ google ∷ facebook ∷ youtube ∷ twitter ∷ instagram
    ∷ netflix ∷ amazon ∷ microsoft ∷ apple ∷ whatsapp ∷ telegram ∷ tiktok ∷ spotify ∷ zoom ∷ discord
    ∷ github ∷ cloudflare ∷ []

find_named : Bytes → List AppType → Option AppType
find_named name [] = none
find_named name (a ∷ as') =
    if equal (app_type_to_string a) name then some a else find_named name as'

-- The loop that turns a name back into an enumerator, as `blockApp(const std::string&)` and
-- `loadRules` have it.
unfoldable pub string_to_app_type : Bytes → Option AppType
unfolding find_named app_type_to_string equal
string_to_app_type name = find_named name all_apps

unfoldable pub contains_any : List String → Bytes → Bool
contains_any [] s = false
contains_any (p ∷ ps) s = contains (codes p) s || contains_any ps s

-- The tests of `sniToAppType`, on the name in lower case.
unfoldable pub classify_lower : Bytes → AppType
classify_lower s =
    if contains_any ("google" ∷ "gstatic" ∷ "googleapis" ∷ "ggpht" ∷ "gvt1" ∷ []) s
    then google
    else if contains_any ("youtube" ∷ "ytimg" ∷ "youtu.be" ∷ "yt3.ggpht" ∷ []) s
    then youtube
    else if contains_any ("facebook" ∷ "fbcdn" ∷ "fb.com" ∷ "fbsbx" ∷ "meta.com" ∷ []) s
    then facebook
    else if contains_any ("instagram" ∷ "cdninstagram" ∷ []) s
    then instagram
    else if contains_any ("whatsapp" ∷ "wa.me" ∷ []) s
    then whatsapp
    else if contains_any ("twitter" ∷ "twimg" ∷ "x.com" ∷ "t.co" ∷ []) s
    then twitter
    else if contains_any ("netflix" ∷ "nflxvideo" ∷ "nflximg" ∷ []) s
    then netflix
    else if contains_any ("amazon" ∷ "amazonaws" ∷ "cloudfront" ∷ "aws" ∷ []) s
    then amazon
    else if contains_any
        ("microsoft" ∷ "msn.com" ∷ "office" ∷ "azure" ∷ "live.com" ∷ "outlook" ∷ "bing" ∷ []) s
    then microsoft
    else if contains_any ("apple" ∷ "icloud" ∷ "mzstatic" ∷ "itunes" ∷ []) s
    then apple
    else if contains_any ("telegram" ∷ "t.me" ∷ []) s
    then telegram
    else if contains_any ("tiktok" ∷ "tiktokcdn" ∷ "musical.ly" ∷ "bytedance" ∷ []) s
    then tiktok
    else if contains_any ("spotify" ∷ "scdn.co" ∷ []) s
    then spotify
    else if contains_any ("zoom" ∷ []) s
    then zoom
    else if contains_any ("discord" ∷ "discordapp" ∷ []) s
    then discord
    else if contains_any ("github" ∷ "githubusercontent" ∷ []) s
    then github
    else if contains_any ("cloudflare" ∷ "cf-" ∷ []) s
    then cloudflare
    else https

unfoldable pub sni_to_app_type : Bytes → AppType
unfolding classify_lower
sni_to_app_type [] = unknown
sni_to_app_type (c ∷ cs) = classify_lower (map to_lower (c ∷ cs))
