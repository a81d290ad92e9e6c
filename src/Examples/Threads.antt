-- ===== src/Examples/Threads.antt =====
-- An engine of two load balancers with two workers each, and some of its steps.
use deep_packet_analyzer.Base.{List, ◌≡◌, refl, inl, ok, [], ◌∷◌, none, ◌⊎◌, false, arith, ◌<◌}
use deep_packet_analyzer.Connection.{PacketJob}
use deep_packet_analyzer.Queue.{Queue, pop_with_timeout, pop_front, push}
use deep_packet_analyzer.FastPath.Inspect.{FastPath}
use deep_packet_analyzer.Pipeline.{
  Config, Engine, Step, Reach, read, take_job, send_job, process, deliver, write, start, step,
  lb_of, fp_of, set_at,
}
use deep_packet_analyzer.FastPath.{run_packet, process_packet, is_outbound}
use deep_packet_analyzer.Tuple.{tuple_eq, canonical_tuple, hash, mix, hash_ends}
use deep_packet_analyzer.Tracker.Table.{find, insert_at, store}
use deep_packet_analyzer.Balance.{lb_index, select_fp}
use deep_packet_analyzer.Tracker.{get_or_create_connection, update_connection}
use deep_packet_analyzer.Connection.{fresh_connection, forward}
use deep_packet_analyzer.Pipeline.Sequential.{
  IsStarted, IsIdle, IsSequential, Alone, Reach-IsSequential, drained-Alone,
}
use deep_packet_analyzer.Pipeline.Route.{jobs_of}
use deep_packet_analyzer.Engine.{handle_output}
use deep_packet_analyzer.Pipeline.Room.{IsRoomy}
use deep_packet_analyzer.Pipeline.Progress.{no_deadlock}
use deep_packet_analyzer.Pipeline.Fit.{AreFit}
use deep_packet_analyzer.Pipeline.Work.{work, load}

abbrev config : Config
config = record {
  std = record { hash32 = λ n. n; hash16 = λ n. n; hash8 = λ n. n };
  num_load_balancers = 2;
  fps_per_lb = 2;
  rules = none;
}

abbrev job : PacketJob
job = record {
  packet_id = 0;
  tuple = record { src_ip = 10; dst_ip = 20; src_port = 50000; dst_port = 443; protocol = 6 };
  bytes = 1 ∷ 2 ∷ 3 ∷ [];
  eth_offset = 0;
  ip_offset = 14;
  transport_offset = 34;
  payload_offset = 3;
  payload_length = 0;
  tcp_flags = 16;
  payload_data = none;
  ts_sec = 0;
  ts_usec = 0;
}

abbrev idle_worker : FastPath
idle_worker = record {
  tracker = record {
    fp_id = 0;
    max_connections = 2;
    connections = [];
    total_seen = 0;
    classified_count = 0;
    blocked_count = 0;
  };
  packets_processed = 0;
  packets_forwarded = 0;
  packets_dropped = 0;
  sni_extractions = 0;
  classification_hits = 0;
}

abbrev no_jobs : Queue PacketJob
no_jobs = record { items = []; max_size = 2; is_shutdown = false }

abbrev started_with : List PacketJob → Engine
started_with jobs = record {
  input = jobs;
  lb_queues = λ i. no_jobs;
  carried = λ i. [];
  fp_queues = λ w. no_jobs;
  workers = λ w. idle_worker;
  decided = λ w. [];
  stats = record {
    total_packets = 0;
    total_bytes = 0;
    forwarded_packets = 0;
    forwarded_bytes = 0;
    dropped_packets = 0;
    dropped_bytes = 0;
    tcp_packets = 0;
    udp_packets = 0;
  };
  output_queue = no_jobs;
  written = [];
}

abbrev started : Engine
started = started_with (job ∷ job ∷ [])

started_with-IsStarted : (jobs : List PacketJob) → IsStarted (started_with jobs)
started_with-IsStarted jobs = record {
  idle = record {
    lbs = λ i. refl;
    carried = λ i. refl;
    fps = λ w. refl;
    decided = λ w. refl;
    output = refl;
  };
  lbs_open = λ i. refl;
  fps_open = λ w. refl;
  out_open = refl;
  none_written = refl;
}

abbrev one_job : Queue PacketJob
one_job = record { items = job ∷ []; max_size = 2; is_shutdown = false }

-- The first job has been pushed to its load balancer.
abbrev pushed : Engine
pushed = record started {
  input = job ∷ [];
  lb_queues = set_at (lb_of config job) one_job started.lb_queues;
}

started-pushed : Step config started pushed
unfolding push
started-pushed = read refl refl

Reach-IsSequential_example : IsSequential config started 0 pushed
Reach-IsSequential_example =
    Reach-IsSequential config started pushed 0 (omega arith)
      (started_with-IsStarted (job ∷ job ∷ [])) (step start started-pushed)

s0-IsRoomy : IsRoomy (started_with (job ∷ []))
s0-IsRoomy = record {
  lbs = λ i. omega arith;
  fps = λ w. omega arith;
  out = omega arith;
  carried = λ i. inl refl;
  decided = λ w. inl refl;
}

-- What the worker makes of the job at time 5: it is passed on.
abbrev after_job : FastPath
after_job = record {
  tracker = record {
    fp_id = 0;
    max_connections = 2;
    connections =
        (job.tuple, record (fresh_connection job.tuple 5) { packets_out = 1; bytes_out = 3 }) ∷ [];
    total_seen = 1;
    classified_count = 0;
    blocked_count = 0;
  };
  packets_processed = 1;
  packets_forwarded = 1;
  packets_dropped = 0;
  sni_extractions = 0;
  classification_hits = 0;
}

job-forwarded : run_packet none idle_worker 5 0 5 job ≡ ok (forward, after_job)
unfolding run_packet process_packet get_or_create_connection find insert_at tuple_eq canonical_tuple
    update_connection is_outbound store
job-forwarded = refl

-- One job on its way from the reader to the output.
abbrev s0 : Engine
s0 = started_with (job ∷ [])

abbrev s1 : Engine
s1 = record s0 { input = []; lb_queues = set_at (lb_of config job) one_job s0.lb_queues }

abbrev s2 : Engine
s2 = record s1 {
  lb_queues = set_at 0 no_jobs s1.lb_queues;
  carried = set_at 0 (job ∷ []) s1.carried;
}

abbrev s3 : Engine
s3 = record s2 {
  carried = set_at 0 [] s2.carried;
  fp_queues = set_at (fp_of config 0 job) one_job s2.fp_queues;
}

abbrev s4 : Engine
s4 = record s3 {
  fp_queues = set_at 0 no_jobs s3.fp_queues;
  workers = set_at 0 after_job s3.workers;
  decided = set_at 0 ((job, forward) ∷ []) s3.decided;
}

abbrev s5 : Engine
s5 = record s4 {
  decided = set_at 0 [] s4.decided;
  stats = record s4.stats { forwarded_packets = 1; forwarded_bytes = 3 };
  output_queue = one_job;
}

abbrev s6 : Engine
s6 = record s5 { output_queue = no_jobs; written = job ∷ [] }

s0-s3 : Reach config s0 s3
unfolding lb_of lb_index fp_of select_fp hash hash_ends mix push pop_with_timeout pop_front
s0-s3 =
    step
      (step (step start (read {s = s0} {job = job} refl refl))
        (take_job {s = s1} 0 (omega arith) refl refl))
      (send_job {s = s2} 0 (omega arith) refl refl)

s0-AreFit : AreFit s0
s0-AreFit = record {
  workers = λ w. record {
    table = record { unique = tt; keyed = tt; bounded = omega arith };
    room = omega arith;
  };
  input = (omega arith, tt);
  lbs = λ i. tt;
  carried = λ i. tt;
  fps = λ w. tt;
}

no_deadlock_example :
    ((work config s3 ≡ 0) ⊎ ((s : Engine) × Step config s3 s × (work config s < work config s3)))
    × ((s : Engine) × Reach config s3 s × (work config s ≡ 0))
no_deadlock_example =
    no_deadlock config s0 s3 (omega arith) (omega arith) (started_with-IsStarted (job ∷ []))
      s0-IsRoomy s0-AreFit s0-s3

-- The job in the queue of its worker has three steps before it.
s3-work : work config s3 ≡ 3
unfolding work load lb_of lb_index fp_of select_fp hash hash_ends mix
s3-work = refl

s0-s6 : Reach config s0 s6
unfolding lb_of lb_index fp_of select_fp hash hash_ends mix push pop_with_timeout pop_front
    handle_output
s0-s6 =
    step
      (step (step s0-s3 (process {s = s3} 0 5 0 5 (omega arith) refl refl job-forwarded))
        (deliver {s = s4} 0 (omega arith) refl refl))
      (write {s = s5} refl)

s6-IsIdle : IsIdle s6
unfolding lb_of lb_index fp_of select_fp hash hash_ends mix
s6-IsIdle = record {
  lbs = λ i. ground arith;
  carried = λ i. ground arith;
  fps = λ w. ground arith;
  decided = λ w. ground arith;
  output = refl;
}

drained-Alone_example :
    Alone config idle_worker (jobs_of config 0 (job ∷ [])) (jobs_of config 0 (job ∷ [])) after_job
drained-Alone_example =
    drained-Alone config s0 s6 0 (omega arith) (started_with-IsStarted (job ∷ [])) s0-s6 refl
      s6-IsIdle
