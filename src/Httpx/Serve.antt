-- ===== src/Httpx/Serve.antt =====
-- httpx/serve.go: Healthz, the server that ListenAndServe makes, and what it returns. The run of the
-- server and its shutdown are parameters; durations are nanoseconds, and sums wrap as Go's int64 do.
use Prim.Native.Nat.{◌^◌}
use pdbcore.Prelude.{◌≡◌, ℕ, ◌+◌, ◌*◌, ◌<◌, Option, some, Text, codes, arith, if◌then◌else◌}
use pdbcore.Prelude.Int.{ℤ, pos, ltz, pos_part, int64}
use pdbcore.Httpx.{Response, set}

pub record ServeOptions : Type 0 where
  pub addr : Text
  pub request_timeout : ℤ

-- What ListenAndServe sets of http.Server besides the handler.
pub record Server : Type 0 where
  pub addr : Text
  pub read_header_timeout : ℤ
  pub read_timeout : ℤ
  pub idle_timeout : ℤ

abbrev pub second : ℕ
second = 1000000000

unfoldable pub read_timeout_of : ServeOptions → ℤ
unfolding int64
read_timeout_of o =
    if ltz (pos 0) o.request_timeout
    then int64 (pos_part o.request_timeout + 10 * second)
    else pos (60 * second)

unfoldable pub server_of : ServeOptions → Server
unfolding read_timeout_of
server_of o = record {
  addr = o.addr;
  read_header_timeout = pos (10 * second);
  read_timeout = read_timeout_of o;
  idle_timeout = pos (120 * second);
}

-- What wakes ListenAndServe first: the context, or the server that ends with an error, which is
-- never nil.
pub data Wake : Type 0 where
  cancelled : Wake
  ended : Text → Wake

-- ListenAndServe: the error, or none. Shutdown is given its own deadline, not the cancelled context.
unfoldable pub listen_and_serve :
    (Server → Wake) → (Server → ℕ → Option Text) → ServeOptions → Option Text
unfolding server_of
listen_and_serve first_wake shutdown o = elim (first_wake (server_of o)) [
  | cancelled ↦ shutdown (server_of o) (10 * second)
  | ended e ↦ some e
]

-- The body may be read for ten seconds longer than the handler may run, short of 292 years.
pub read_timeout_outlasts :
    (o : ServeOptions) (t : ℕ)
    → o.request_timeout ≡ pos t
    → 0 < t
    → t + 10 * second < 2 ^ 63
    → (server_of o).read_timeout ≡ pos (t + 10 * second)
unfolding server_of
read_timeout_outlasts o t same positive small = rw same (ground arith)

-- Healthz: the response that it leaves, and what it writes as its body.
unfoldable pub healthz : Response → Response × Text
healthz w = (set (codes "Content-Type") (codes "application/json") w, codes "{\"status\":\"ok\"}")
