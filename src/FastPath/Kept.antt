-- ===== src/FastPath/Kept.antt =====
-- What looking into a payload leaves as it is: the table, the packet counters, the tuple of the flow.
use deep_packet_analyzer.Base.{
  ◌≡◌, refl, ◌∙◌, Bool, true, false, not, ◌&&◌, ◌||◌, Option, none, some, ltb, ◌==◌, if◌then◌else◌,
  [], Bytes, Result, ok, err, ◌>>=◌, Bool-cases, inl, inr,
}
use deep_packet_analyzer.Connection.{Connection, PacketJob, is_classified, is_blocked, add64}
use deep_packet_analyzer.App.{AppType, unknown, http, https, dns, app_eq, sni_to_app_type}
use deep_packet_analyzer.Extract.Tls
use deep_packet_analyzer.Extract.Http
use deep_packet_analyzer.Extract.Dns.{extract_query}
use deep_packet_analyzer.Tracker.{classify_connection}
use deep_packet_analyzer.FastPath.Inspect.{
  FastPath, has_payload, payload, classify_sni, classify_host, try_extract_sni,
  try_extract_http_host, inspect_rest, inspect_payload, classify_query, classify_port, classify,
  count_hit,
}

abbrev pub Work : Type 0
Work = FastPath × Connection

-- The table, the packet counters and the tuple stay, and a flow that was not blocked is not.
pub record IsKept (v w : Work) : Type 0 where
  pub connections : w.0.tracker.connections ≡ v.0.tracker.connections
  pub room : w.0.tracker.max_connections ≡ v.0.tracker.max_connections
  pub processed : w.0.packets_processed ≡ v.0.packets_processed
  pub forwarded : w.0.packets_forwarded ≡ v.0.packets_forwarded
  pub dropped : w.0.packets_dropped ≡ v.0.packets_dropped
  pub tuple : w.1.tuple ≡ v.1.tuple
  pub unblocked : is_blocked v.1.state ≡ false → is_blocked w.1.state ≡ false

pub IsKept-refl : (v : Work) → IsKept v v
IsKept-refl v = record {
  connections = refl;
  room = refl;
  processed = refl;
  forwarded = refl;
  dropped = refl;
  tuple = refl;
  unblocked = λ h. h;
}

pub IsKept-trans : (u v w : Work) → IsKept u v → IsKept v w → IsKept u w
IsKept-trans u v w h k = record {
  connections = k.connections ∙ h.connections;
  room = k.room ∙ h.room;
  processed = k.processed ∙ h.processed;
  forwarded = k.forwarded ∙ h.forwarded;
  dropped = k.dropped ∙ h.dropped;
  tuple = k.tuple ∙ h.tuple;
  unblocked = λ o. k.unblocked (h.unblocked o);
}

classify-IsKept :
    (fp : FastPath) (c : Connection) (app : AppType) (name : Bytes)
    → IsKept (fp, c) (classify fp c app name)
unfolding classify classify_connection
classify-IsKept fp c app name = elim (Bool-cases (is_classified c.state)) [
  | inl e ↦ rw e (IsKept-refl (fp, c))
  | inr e ↦ rw e (record {
    connections = refl;
    room = refl;
    processed = refl;
    forwarded = refl;
    dropped = refl;
    tuple = refl;
    unblocked = λ h. refl;
  })
]

count_hit-IsKept :
    (plain app : AppType) (fp : FastPath) (c : Connection)
    → IsKept (fp, c) (count_hit plain app fp, c)
unfolding count_hit
count_hit-IsKept plain app fp c = elim (Bool-cases (app_eq app unknown || app_eq app plain)) [
  | inl e ↦ rw e (IsKept-refl (fp, c))
  | inr e ↦ rw e (record {
    connections = refl;
    room = refl;
    processed = refl;
    forwarded = refl;
    dropped = refl;
    tuple = refl;
    unblocked = λ h. h;
  })
]

classify_host-IsKept :
    (fp : FastPath) (c : Connection) (o : Option Bytes)
    → IsKept (fp, c) ((classify_host fp c o).1, (classify_host fp c o).2)
unfolding classify_host
classify_host-IsKept fp c none = IsKept-refl (fp, c)
classify_host-IsKept fp c (some host) =
    let app = sni_to_app_type host in
    IsKept-trans (fp, c) (classify fp c app host) _ (classify-IsKept fp c app host)
      (count_hit-IsKept http app (classify fp c app host).0 (classify fp c app host).1)

classify_sni-IsKept :
    (fp : FastPath) (c : Connection) (o : Option Bytes)
    → IsKept (fp, c) ((classify_sni fp c o).1, (classify_sni fp c o).2)
unfolding classify_sni
classify_sni-IsKept fp c none = IsKept-refl (fp, c)
classify_sni-IsKept fp c (some sni) =
    let app = sni_to_app_type sni in
    let seen = record fp { sni_extractions = add64 fp.sni_extractions 1 } in
    IsKept-trans (fp, c) (seen, c) _
      (record {
        connections = refl;
        room = refl;
        processed = refl;
        forwarded = refl;
        dropped = refl;
        tuple = refl;
        unblocked = λ h. h;
      })
      (IsKept-trans (seen, c) (classify seen c app sni) _ (classify-IsKept seen c app sni)
        (count_hit-IsKept https app (classify seen c app sni).0 (classify seen c app sni).1))

classify_port-IsKept :
    (job : PacketJob) (fp : FastPath) (c : Connection) → IsKept (fp, c) (classify_port job fp c)
unfolding classify_port
classify_port-IsKept job fp c = elim (Bool-cases (job.tuple.dst_port == 80)) [
  | inl e ↦ rw e (classify-IsKept fp c http [])
  | inr e ↦ rw e (elim (Bool-cases (job.tuple.dst_port == 443)) [
    | inl f ↦ rw f (classify-IsKept fp c https [])
    | inr f ↦ rw f (IsKept-refl (fp, c))
  ])
]

classify_query-IsKept :
    (job : PacketJob) (fp : FastPath) (c : Connection) (o : Option Bytes)
    → IsKept (fp, c) (classify_query job fp c o)
unfolding classify_query
classify_query-IsKept job fp c none = classify_port-IsKept job fp c
classify_query-IsKept job fp c (some domain) = classify-IsKept fp c dns domain

-- If the code ends with a value, the value has the property.
abbrev pub Always {ℓ κ} : {A : Type ℓ} → Result A → (A → Type κ) → Type κ
Always (ok a) P = P a
Always (err e) P = Unit

Always-bind {ℓ κ μ} :
    {A : Type ℓ} {B : Type κ} (P : B → Type μ) (m : Result A) (f : A → Result B)
    → ((a : A) → Always (f a) P)
    → Always (m >>= f) P
Always-bind P (ok a) f h = h a
Always-bind P (err e) f h = tt

pub Always-then {ℓ κ μ ν} :
    {A : Type ℓ} {B : Type κ} (P : A → Type μ) (Q : B → Type ν) (m : Result A) (f : A → Result B)
    → Always m P
    → ((a : A) → P a → Always (f a) Q)
    → Always (m >>= f) Q
Always-then P Q (ok a) f h k = k a h
Always-then P Q (err e) f h k = tt

pub Always-if {ℓ κ} :
    {A : Type ℓ} (P : A → Type κ) (b : Bool) (m n : Result A)
    → Always m P
    → Always n P
    → Always (if b then m else n) P
Always-if P true m n h k = h
Always-if P false m n h k = k

abbrev FromWork : Work → Bool × FastPath × Connection → Type 0
FromWork v s = IsKept v (s.1, s.2)

sni_of : FastPath → Connection → Bytes → Result (Bool × FastPath × Connection)
sni_of fp c p = Tls.extract p >>= λ o. ok (classify_sni fp c o)

host_of : FastPath → Connection → Bytes → Result (Bool × FastPath × Connection)
host_of fp c p = Http.extract p >>= λ o. ok (classify_host fp c o)

query_of : PacketJob → FastPath → Connection → Bytes → Result Work
query_of job fp c p = extract_query p >>= λ o. ok (classify_query job fp c o)

try_extract_sni-IsKept :
    (job : PacketJob) (fp : FastPath) (c : Connection)
    → Always (try_extract_sni job fp c) (FromWork (fp, c))
unfolding try_extract_sni sni_of
try_extract_sni-IsKept job fp c =
    let P = FromWork (fp, c) in
    let skip : Result (Bool × FastPath × Connection) = ok (false, fp, c) in
    let go = payload job >>= sni_of fp c in
    Always-if P (not (job.tuple.dst_port == 443) && ltb job.payload_length 50) skip
      (if not (has_payload job) then skip else go) (IsKept-refl (fp, c))
      (Always-if P (not (has_payload job)) skip go (IsKept-refl (fp, c)) (
        Always-bind P (payload job) (sni_of fp c) (λ p.
          Always-bind P (Tls.extract p) (λ o. ok (classify_sni fp c o))
            (λ o. classify_sni-IsKept fp c o))))

try_extract_http_host-IsKept :
    (job : PacketJob) (fp : FastPath) (c : Connection)
    → Always (try_extract_http_host job fp c) (FromWork (fp, c))
unfolding try_extract_http_host host_of
try_extract_http_host-IsKept job fp c =
    let P = FromWork (fp, c) in
    let skip : Result (Bool × FastPath × Connection) = ok (false, fp, c) in
    let go = payload job >>= host_of fp c in
    Always-if P (not (job.tuple.dst_port == 80)) skip (if not (has_payload job) then skip else go)
      (IsKept-refl (fp, c))
      (Always-if P (not (has_payload job)) skip go (IsKept-refl (fp, c)) (
        Always-bind P (payload job) (host_of fp c) (λ p.
          Always-bind P (Http.extract p) (λ o. ok (classify_host fp c o))
            (λ o. classify_host-IsKept fp c o))))

inspect_rest-IsKept :
    (job : PacketJob) (fp : FastPath) (c : Connection)
    → Always (inspect_rest job fp c) (IsKept (fp, c))
unfolding inspect_rest query_of
inspect_rest-IsKept job fp c =
    let P : Work → Type 0 = IsKept (fp, c) in
    Always-if P (job.tuple.dst_port == 53 || job.tuple.src_port == 53)
      (payload job >>= query_of job fp c) (ok (classify_port job fp c))
      (Always-bind P (payload job) (query_of job fp c) (λ p.
        Always-bind P (extract_query p) (λ o. ok (classify_query job fp c o))
          (λ o. classify_query-IsKept job fp c o)))
      (classify_port-IsKept job fp c)

Always-from :
    (u v : Work) (m : Result Work) → IsKept u v → Always m (IsKept v) → Always m (IsKept u)
Always-from u v (ok w) h k = IsKept-trans u v w h k
Always-from u v (err e) h k = tt

after_host : PacketJob → Bool × FastPath × Connection → Result Work
after_host job t = if t.0 then ok (t.1, t.2) else inspect_rest job t.1 t.2

after_sni : PacketJob → Bool × FastPath × Connection → Result Work
unfolding after_host
after_sni job s =
    if s.0 then ok (s.1, s.2) else (try_extract_http_host job s.1 s.2 >>= after_host job)

after_host-IsKept :
    (job : PacketJob) (v : Work) (t : Bool × FastPath × Connection)
    → FromWork v t
    → Always (after_host job t) (IsKept v)
unfolding after_host
after_host-IsKept job v t h =
    Always-if (IsKept v) t.0 (ok (t.1, t.2)) (inspect_rest job t.1 t.2) h
      (Always-from v (t.1, t.2) (inspect_rest job t.1 t.2) h (inspect_rest-IsKept job t.1 t.2))

after_sni-IsKept :
    (job : PacketJob) (v : Work) (s : Bool × FastPath × Connection)
    → FromWork v s
    → Always (after_sni job s) (IsKept v)
unfolding after_sni
after_sni-IsKept job v s h =
    Always-if (IsKept v) s.0 (ok (s.1, s.2)) (try_extract_http_host job s.1 s.2 >>= after_host job)
      h
      (Always-then (FromWork (s.1, s.2)) (IsKept v) (try_extract_http_host job s.1 s.2)
        (after_host job) (try_extract_http_host-IsKept job s.1 s.2)
        (λ t k. after_host-IsKept job v t (IsKept-trans v (s.1, s.2) (t.1, t.2) h k)))

-- Looking into the payload keeps the table, and never blocks a flow.
pub inspect_payload-IsKept :
    (job : PacketJob) (fp : FastPath) (c : Connection)
    → Always (inspect_payload job fp c) (IsKept (fp, c))
unfolding inspect_payload after_sni after_host
inspect_payload-IsKept job fp c =
    Always-if (IsKept (fp, c)) (not (has_payload job)) (ok (fp, c))
      (try_extract_sni job fp c >>= after_sni job) (IsKept-refl (fp, c))
      (Always-then (FromWork (fp, c)) (IsKept (fp, c)) (try_extract_sni job fp c) (after_sni job)
        (try_extract_sni-IsKept job fp c) (λ s h. after_sni-IsKept job (fp, c) s h))
