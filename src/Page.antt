-- ===== src/Page.antt =====
-- include/controller/MetricsServer.hpp and src/controller/MetricsServer.cpp: the page, and what the server
-- asks of asio. The division and the printing of a `double` are the machine's: a parameter.
pub mod Scrape
use stradvision.Common.{
  true, ℤ, ℕ, Bool, List, [], codes, if◌then◌else◌, length, ltb, negsuc, pos, suc, to_i32, zero,
  ◌%◌, ◌++◌, ◌+◌, ◌/◌, ◌∷◌,
}
use stradvision.Metrics.{MetricsTracker}

pub record DoubleOps : Type 0 where
  pub quotient : ℕ → ℕ → ℕ
  pub print : ℕ → List ℕ

-- `<<` of an unsigned integer with at most as many digits as the fuel, in front of a text.
unfoldable pub digits : ℕ → ℕ → List ℕ → List ℕ
digits zero n text = text
digits (suc f) n text =
    let more = digits f (n / 10) ((b'0' + n % 10) ∷ text) in
    if ltb n 10 then (b'0' + n) ∷ text else more

-- A 64-bit counter has at most 20 digits.
abbrev pub put_u64 : ℕ → List ℕ
put_u64 n = digits 20 n []

-- `<<` of the gauge, an `int`.
abbrev pub put_int : ℤ → List ℕ
put_int (pos n) = put_u64 n
put_int (negsuc n) = b'-' ∷ put_u64 (n + 1)

abbrev pub active_head : List ℕ
active_head =
    codes "# HELP stradvision_active_connections Number of active agents connected\n"
    ++ (codes "# TYPE stradvision_active_connections gauge\n"
        ++ codes "stradvision_active_connections ")

abbrev pub failures_head : List ℕ
failures_head =
    codes "\n\n# HELP stradvision_command_failures_total Total command failures (NACK or Timeout)\n"
    ++ (codes "# TYPE stradvision_command_failures_total counter\n"
        ++ codes "stradvision_command_failures_total ")

abbrev pub rtt_head : List ℕ
rtt_head =
    codes "\n\n# HELP stradvision_avg_rtt_ms Average Round Trip Time in ms\n"
    ++ (codes "# TYPE stradvision_avg_rtt_ms gauge\n" ++ codes "stradvision_avg_rtt_ms ")

-- `0.0` has the pattern 0.
unfoldable pub avg_rtt : DoubleOps → MetricsTracker → ℕ
avg_rtt d t = if ltb 0 t.rtt_samples then d.quotient t.total_rtt_ms t.rtt_samples else 0

unfoldable pub page_body : DoubleOps → MetricsTracker → List ℕ
page_body d t =
    active_head
    ++ (put_int (to_i32 t.active_connections)
        ++ (failures_head
            ++ (put_u64 t.command_failures ++ (rtt_head ++ (d.print (avg_rtt d t) ++ codes "\n")))))

abbrev pub length_head : List ℕ
length_head =
    codes "HTTP/1.1 200 OK\r\n"
    ++ (codes "Content-Type: text/plain; version=0.0.4\r\n" ++ codes "Content-Length: ")

abbrev pub length_tail : List ℕ
length_tail = codes "\r\nConnection: close\r\n\r\n"

unfoldable pub response : DoubleOps → MetricsTracker → List ℕ
response d t =
    let body = page_body d t in length_head ++ (put_u64 (length body) ++ (length_tail ++ body))

-- What the server asks of its acceptor and of a scraper's socket.
pub data PageCall : Type 0 where
  accepts_scraper : PageCall
  writes : List ℕ → PageCall
  shuts_scraper : PageCall
  closes_scraper : PageCall
  closes_acceptor : PageCall

unfoldable pub start : DoubleOps → MetricsTracker → List PageCall
start d t = writes (response d t) ∷ []

-- The handler of the write, whether it failed or not.
unfoldable pub on_page_written : List PageCall
on_page_written = shuts_scraper ∷ closes_scraper ∷ []

-- `is_open` is the acceptor's.
unfoldable pub do_accept : Bool → List PageCall
do_accept is_open = if is_open then accepts_scraper ∷ [] else []

-- The handler of `async_accept`, without an error or with one.
unfoldable pub on_scraper : DoubleOps → MetricsTracker → Bool → Bool → List PageCall
on_scraper d t failed is_open = (if failed then [] else start d t) ++ do_accept is_open

unfoldable pub create : List PageCall
unfolding do_accept
create = do_accept true

unfoldable pub destroy : List PageCall
destroy = closes_acceptor ∷ []
