-- ===== src/Lib.antt =====
-- The core of ddtrace, a tracing library: what happens to a trace between its first span and the
-- headers or the sampler's decision that leave the process.
--
-- A span (ddtrace/span.py) carries tags and a context; the contexts of one trace share their dicts
-- (ddtrace/context.py), so a sampling priority that is set on one is seen by all. The samplers
-- (ddtrace/sampler.py) decide on a root span, set that priority, and ask a token bucket
-- (ddtrace/internal/rate_limiter.py) whether the trace fits the limit. The propagator
-- (ddtrace/propagation/http.py) writes a context into headers and reads it back on the other side.
-- The tracer (ddtrace/tracer.py) starts each span below the active one, or first in a trace, lets
-- the samplers decide on the first, and tells the aggregator.
-- The aggregator (ddtrace/internal/processor/trace.py) collects the spans of a trace until they have
-- finished, and hands them through the processors to the writer. The writer
-- (ddtrace/internal/writer.py) packs each trace into the buffer of an encoder
-- (ddtrace/internal/_encoding.pyx), sends the buffer to the agent, and counts what is lost.
--
-- An integration reads its settings (ddtrace/settings), which come from texts
-- (ddtrace/utils/formats.py), finds the pin of the object that is traced (ddtrace/pin.py), and tells
-- the span of an HTTP request (ddtrace/contrib/trace_utils.py). A test run in a CI system gets tags
-- from the environment and from git (ddtrace/ext/ci.py, ddtrace/ext/git.py).
--
-- Which file models what:
--   Base           names from the library, Boolean tests, lists over native numbers, signed
--                  integers, dicts as association lists, text as code points, decimal numbers,
--                  fractions
--   RateLimiter    RateLimiter of ddtrace/internal/rate_limiter.py, a method per function
--   MovingAverage  SimpleMovingAverage of ddtrace/internal/sma.py; `put` is its `set`
--   Context        Context of ddtrace/context.py; the dicts `_meta` and `_metrics` are a cell of a
--                  store, and a context holds its address
--   Propagation    HTTPPropagator of ddtrace/propagation/http.py and get_wsgi_header of
--                  ddtrace/propagation/utils.py
--   Span           Span of ddtrace/span.py: data, clock, metrics, string tags, exceptions;
--                  its `set_tag` is in Span/Tagging
--   Sampler        RateSampler, RateByServiceSampler, SamplingRule and DatadogSampler of
--                  ddtrace/sampler.py
--   Aggregator     SpanAggregator and its processors of ddtrace/internal/processor/trace.py, and
--                  FilterRequestsOnUrl of ddtrace/filters.py; `collect`, `run_processors` and
--                  `deliver` are the parts of on_span_finish
--   Encoder        MsgpackEncoder of ddtrace/internal/_encoding.pyx; Encoder/Packing is what
--                  it writes for a trace, Encoder/Buffer the memory
--   Writer         AgentWriter of ddtrace/internal/writer.py: write and flush_queue;
--                  Writer/Sending is _send_payload, Writer/Counts the metrics, Writer/Retry what
--                  is assumed of tenacity; the other files in Writer are about the counts
--   Tracer         Tracer of ddtrace/tracer.py: its state and what it reads; Tracer/Starting is
--                  _start_span, trace and _on_span_finish, Tracer/Sampling the decision on the first
--                  span; the other files in Tracer are about these
--   Logger         DDLogger.handle of ddtrace/internal/logger.py
--   Service        Service of ddtrace/internal/service.py
--   Provider       DefaultContextProvider of ddtrace/provider.py
--   Cache          cached of ddtrace/utils/cache.py; Cache/Method is cachedmethod, an object with
--                  the cache of one method
--   Hooks          Hooks of ddtrace/_hooks.py
--   StopWatch      StopWatch of ddtrace/utils/time.py
--   Recorder       Recorder of ddtrace/profiling/recorder.py and Scheduler of
--                  ddtrace/profiling/scheduler.py
--   Capture        CaptureSampler of ddtrace/profiling/collector/__init__.py, in parts of the float
--   Ci             tags of ddtrace/ext/ci.py; Ci/Git is ddtrace/ext/git.py, Ci/Providers the table
--                  of each provider, Ci/Refs the names of branches and the filter of credentials;
--                  the other files in Ci are about these
--   Formats        get_env, asbool and parse_tags_str of ddtrace/utils/formats.py
--   Settings       HttpConfig of ddtrace/settings/http.py and what an IntegrationConfig of
--                  ddtrace/settings/integration.py answers of headers; Settings/Codes is
--                  get_error_ranges and HTTPServerConfig of ddtrace/settings/config.py, and
--                  Settings/Environment its Config.__init__
--   Http           set_http_meta of ddtrace/contrib/trace_utils.py, as the calls that it makes on
--                  the span, and strip_query_string of ddtrace/utils/http.py
--   Integration    the names of services and activate_distributed_headers of
--                  ddtrace/contrib/trace_utils.py
--   Flatten        _flatten and set_flattened_tags of the same file
--   Pin            Pin of ddtrace/pin.py, over a store of pins and of their dicts `_config`, and
--                  the classes of each object, with Config.get_from of
--                  ddtrace/settings/config.py
--   Tests          runs at fixed inputs, and the theorems applied at concrete values
--
-- State is passed explicitly: a method takes the object and returns it with the answer. A method
-- that raises returns an Option. The clock, random numbers and `str` of a float are arguments.
-- Time in the rate limiter is counted in ticks, `res` to the second, and tokens in parts of
-- 1/res, so its arithmetic is exact; a rate is a fraction, as each float is. The sampler of
-- captures counts in parts of 2 ** -1074, of which each finite float has a whole number, and the
-- rounding of its sums is a parameter. Every loop is structural recursion but three. Sending runs on fuel for two requests, which is enough because a
-- downgrade leaves the first endpoint for the last. The search of the provider for an unfinished
-- ancestor runs on fuel, one more than the address of the span, which is enough because a parent is
-- made before its child. The stack of _flatten runs on fuel for one turn for each leaf and dict,
-- which is proved to be enough.
--
-- Code that is not in the repository is a parameter: the msgpack functions in C (what they write),
-- the agent (its answer to each request), the JSON parser, and the retries of tenacity, of which
-- the documented policy is assumed. So are the processes that run git (their return code and
-- output), os.path.expanduser, what the platform says of itself, and re.sub where its pattern is
-- made of a branch; the patterns that are constants are written out.
--
-- Not modelled: locks (each method is one step), log messages, the set-up of the tracer, the JSON
-- encoders, the integrations beside the functions that they share, the settings that integrations
-- add, the rest of the profiler, and the vendored packages.
pub mod Base
pub mod RateLimiter
pub mod MovingAverage
pub mod Context
pub mod Propagation
pub mod Span
pub mod Sampler
pub mod Aggregator
pub mod Logger
pub mod Service
pub mod Provider
pub mod Cache
pub mod Hooks
pub mod StopWatch
pub mod Encoder
pub mod Writer
pub mod Tracer
pub mod Recorder
pub mod Capture
pub mod Ci
pub mod Formats
pub mod Pin
pub mod Settings
pub mod Http
pub mod Integration
pub mod Flatten
pub mod Tests
