-- ===== src/Tests/Sending.antt =====
-- Encoders and writers at fixed inputs.
use dd_trace_py.Base.{
  ℕ, zero, suc, ◌+◌, ◌-◌, ◌^◌, ◌/◌, ◌%◌, ◌≤◌, ◌<◌, ◌≡◌, refl, sym, ap, arith, true, false, Option,
  none, some, List, [], ◌∷◌, ◌++◌, if◌then◌else◌, length, ltb, All,
}
use dd_trace_py.Base.Int.{ℤ, pos, negsuc}
use dd_trace_py.Base.Dict.{lookup}
use dd_trace_py.Base.Text.{Text, codes}
use dd_trace_py.Context.{Store, no_tags}
use dd_trace_py.Span.{Span, init}
use dd_trace_py.Encoder.{
  Encoder, accepted, size, put_written, encode, array_prefix_size, init as new_encoder,
}
use dd_trace_py.Encoder.Buffer.{read}
use dd_trace_py.Encoder.Packing.{Packer}
use dd_trace_py.Encoder.Frames.{Holds, after_put, put_written-Holds, concat}
use dd_trace_py.Encoder.Flushed.{prefix_size, encode_lem, encode_overwrites, drop}
use dd_trace_py.Encoder.Bounds.{put_all, put_all-le}
use dd_trace_py.Service.{stopped}
use dd_trace_py.Sampler.{Given}
use dd_trace_py.Writer.{Writer, try_flush}
use dd_trace_py.Writer.Counts.{dropped_traces, accepted_traces}
use dd_trace_py.Writer.Sending.{
  Reply, response, Link, Sent, returned, raised, v04, no_sampler, send_payload,
}
use dd_trace_py.Writer.Retry.{
  Ending, done, gave_up, passed_on, Call, Tried, returned_now, raised_other, raised_last,
  raised_again, Returns, IsRetrying,
}
use dd_trace_py.Writer.Accounting.{send_payload-Returns}
use dd_trace_py.Writer.Windows.{IsBalanced, Use, writes, flushes, use_all, use_all-counts}

-- an array prefix of the msgpack format
abbrev array_prefix : ℕ → List ℕ
array_prefix n =
    if ltb n 16
    then (144 + n) ∷ []
    else if ltb n (2 ^ 16)
    then 220 ∷ n / 256 ∷ n % 256 ∷ []
    else 221 ∷ n / 2 ^ 24 ∷ (n / 2 ^ 16) % 256 ∷ (n / 256) % 256 ∷ n % 256 ∷ []

array_prefix-length : (n : ℕ) → length (array_prefix n) ≡ prefix_size n
array_prefix-length n = ground arith

abbrev short : ℤ → List ℕ
short (pos n) = n ∷ []
short (negsuc n) = (255 - n) ∷ []

abbrev packer : Packer
packer = record {
  nil = 192 ∷ [];
  signed = short;
  unsigned = λ n. n ∷ [];
  double = λ z d. 203 ∷ short z ++ (d ∷ []);
  array = array_prefix;
  map = λ n. (128 + n) ∷ [];
  raw = λ n. (160 + n) ∷ [];
  unicode = λ t limit. some ((160 + length t) ∷ t);
  utf8 = λ t. t;
}

abbrev one_trace : Encoder
one_trace = record { memory = λ i. i; position = 7; count = 1; max_size = 100; max_item_size = 50 }

one_trace-Holds : Holds one_trace ((5 ∷ 6 ∷ []) ∷ [])
unfolding read
one_trace-Holds = record { position = refl; counted = refl; bytes = refl }

put_written-Holds_example : Holds (put_written (7 ∷ 8 ∷ 9 ∷ [], true) one_trace).0 (
    after_put ((5 ∷ 6 ∷ []) ∷ []) (7 ∷ 8 ∷ 9 ∷ []) (put_written (7 ∷ 8 ∷ 9 ∷ [], true) one_trace).1)
put_written-Holds_example =
    put_written-Holds (7 ∷ 8 ∷ 9 ∷ [], true) one_trace ((5 ∷ 6 ∷ []) ∷ []) one_trace-Holds

one_more : (put_written (7 ∷ 8 ∷ 9 ∷ [], true) one_trace).1 ≡ accepted
unfolding put_written size array_prefix_size
one_more = refl

encode_lem_example :
    ((encode packer one_trace).1 ≡ some (145 ∷ 5 ∷ 6 ∷ [])) × Holds (encode packer one_trace).0 []
encode_lem_example =
    encode_lem packer one_trace ((5 ∷ 6 ∷ []) ∷ []) array_prefix-length one_trace-Holds
      (omega arith) (omega arith)

put_all-le_example :
    size (put_all ((1 ∷ 2 ∷ [], true) ∷ (3 ∷ [], false) ∷ []) (new_encoder (λ i. 0) 10 5)) ≤ 12
put_all-le_example = put_all-le (λ i. 0) 10 5 ((1 ∷ 2 ∷ [], true) ∷ (3 ∷ [], false) ∷ [])

-- one byte for each of `n` traces
abbrev ones : ℕ → List (List ℕ)
ones zero = []
ones (suc n) = (1 ∷ []) ∷ ones n

abbrev many : ℕ → Encoder
many n = record {
  memory = λ i. 1;
  position = 5 + n;
  count = n;
  max_size = 2 ^ 23;
  max_item_size = 2 ^ 23;
}

length-ones : (n : ℕ) → length (ones n) ≡ n
length-ones zero = refl
length-ones (suc n) = ap suc (length-ones n)

length-concat-ones : (n : ℕ) → length (concat (ones n)) ≡ n
length-concat-ones zero = refl
length-concat-ones (suc n) = ap suc (length-concat-ones n)

read-ones : (n p : ℕ) → read p n (λ i. 1) ≡ concat (ones n)
unfolding read
read-ones zero p = refl
read-ones (suc n) p = ap (λ (l : List ℕ). 1 ∷ l) (read-ones n (p + 1))

ones-full : (n : ℕ) → All (λ t. 0 < length t) (ones n)
ones-full zero = record {}
ones-full (suc n) = (omega arith, ones-full n)

many-Holds : (n : ℕ) → Holds (many n) (ones n)
many-Holds n = record {
  position = rw (length-concat-ones n) refl;
  counted = sym (length-ones n);
  bytes = rw (length-concat-ones n) (read-ones n 5);
}

abbrev after_call : (Link → Link × Ending) → Link × Option Sent → Link × Ending
after_call again (l, none) = (l, gave_up)
after_call again (l, some returned) = (l, done)
after_call again (l, some (raised false)) = (l, passed_on)
after_call again (l, some (raised true)) = again l

-- retries as documented: so many more calls, each only after an exception of the first types
abbrev try_again : ℕ → Call → Link → Link × Ending
try_again zero f l = after_call (λ k. (k, gave_up)) (f l)
try_again (suc k) f l = after_call (try_again k f) (f l)

after_call-last :
    (f : Call) (l : Link) (r : Link × Option Sent)
    → f l ≡ r
    → ((s : Sent) × (r.1 ≡ some s))
    → Tried f 1 l (after_call (λ k. (k, gave_up)) r)
after_call-last f l (l', none) e (s, h) = absurd (ground (arith, h))
after_call-last f l (l', some returned) e h = returned_now e
after_call-last f l (l', some (raised false)) e h = raised_other e
after_call-last f l (l', some (raised true)) e h = raised_last e

after_call-again :
    (f : Call) (k : ℕ) (again : Link → Link × Ending) (l : Link) (r : Link × Option Sent)
    → f l ≡ r
    → ((s : Sent) × (r.1 ≡ some s))
    → ((l' : Link) → Tried f k l' (again l'))
    → Tried f (suc k) l (after_call again r)
after_call-again f k again l (l', none) e (s, h) more = absurd (ground (arith, h))
after_call-again f k again l (l', some returned) e h more = returned_now e
after_call-again f k again l (l', some (raised false)) e h more = raised_other e
after_call-again f k again l (l', some (raised true)) e h more = raised_again e (more l')

try_again-Tried : (k : ℕ) (f : Call) → Returns f → (l : Link) → Tried f (suc k) l (try_again k f l)
try_again-Tried zero f ends l = after_call-last f l (f l) refl (ends l)
try_again-Tried (suc k) f ends l =
    after_call-again f (suc k) (try_again k f) l (f l) refl (ends l) (try_again-Tried k f ends)

try_again-IsRetrying : IsRetrying (try_again 2)
try_again-IsRetrying f ends l = try_again-Tried 2 f ends l

-- the agent refuses the first endpoint, then takes what it is sent
abbrev agent : ℕ → Reply
agent zero = response 404 []
agent (suc n) = response 200 (codes "OK")

abbrev no_json : Text → Option (Option (List (Text × Given)))
no_json t = none

abbrev link : Link
link = record {
  endpoint = v04;
  metrics = [];
  sampler = no_sampler;
  priority_sampler = no_sampler;
  requests = 0;
}

send_payload-Returns_example : (s : Sent) × ((send_payload agent no_json 2 10 3 link).1 ≡ some s)
send_payload-Returns_example = send_payload-Returns agent no_json 10 3 link

abbrev writer : Writer
writer = record {
  encoder = one_trace;
  link = record link { metrics = ("writer.accepted.traces", record { count = 1; tags = [] }) ∷ [] };
  drop_sma = record {
    size = 1;
    index = 0;
    counts = 0 ∷ [];
    totals = 0 ∷ [];
    sum_count = 0;
    sum_total = 0;
  };
  sync_mode = false;
  report_metrics = true;
  status = stopped;
  reported = [];
}

abbrev web_span : Span
web_span =
    init
      (record {
        name = codes "web.request";
        service = some (codes "web");
        resource = none;
        span_type = none;
        trace_id = some 12;
        span_id = some 34;
        parent_id = none;
        start_ns = some 100;
        context = none;
      })
      0 1 2

abbrev store : Store
store a = no_tags

abbrev day : List Use
day =
    writes false store (some (web_span ∷ []))
    ∷ flushes false true
    ∷ writes false store none
    ∷ flushes true false
    ∷ []

writer-IsBalanced : IsBalanced writer
unfolding lookup
writer-IsBalanced = omega arith

use_all-counts_example :
    IsBalanced (use_all packer (try_again 2) agent no_json day writer)
    × (dropped_traces
          (try_flush packer
            (try_again 2)
            agent
            no_json
            false
            true
            (use_all packer (try_again 2) agent no_json day writer)).0.link.metrics
        ≤ accepted_traces
            (try_flush packer
              (try_again 2)
              agent
              no_json
              false
              true
              (use_all packer (try_again 2) agent no_json day writer)).0.link.metrics)
use_all-counts_example =
    use_all-counts packer (try_again 2) agent no_json false true day writer try_again-IsRetrying
      writer-IsBalanced

encode_overwrites_example :
    (encode packer (many 65536)).1
    ≡ some (array_prefix (length (ones 65536)) ++ drop 2 (concat (ones 65536)))
encode_overwrites_example =
    encode_overwrites packer (many 65536) (ones 65536) array_prefix-length (many-Holds 65536)
      (ones-full 65536) (omega (arith, length-ones 65536)) (omega (arith, length-ones 65536))
