-- ===== src/Metrics.antt =====
-- The counters of `Metrics` (backend/metrics.py).
pub mod Latency
use network_backend_article.Base.{ℕ, ◌+◌, ◌==◌, if◌then◌else◌}

pub record Metrics : Type 0 where
  pub messages_received : ℕ
  pub messages_dropped : ℕ
  pub frames_emitted : ℕ
  pub raw_rows_written : ℕ

abbrev pub init : Metrics
init = record {
  messages_received = 0;
  messages_dropped = 0;
  frames_emitted = 0;
  raw_rows_written = 0;
}

abbrev pub inc_received : Metrics → Metrics
inc_received m = record m { messages_received = m.messages_received + 1 }

abbrev pub inc_dropped : Metrics → Metrics
inc_dropped m = record m { messages_dropped = m.messages_dropped + 1 }

abbrev pub inc_frames : ℕ → Metrics → Metrics
inc_frames n m = record m { frames_emitted = m.frames_emitted + n }

abbrev pub add_rows : ℕ → Metrics → Metrics
add_rows n m = record m { raw_rows_written = m.raw_rows_written + n }

-- The `drop_rate` of `snapshot` before its division and its rounding: `0.0` is 0 over 1.
pub record DropRate : Type 0 where
  pub dropped : ℕ
  pub total : ℕ

unfoldable pub drop_rate : Metrics → DropRate
drop_rate m =
    let loss_total = m.messages_received + m.messages_dropped in
    if loss_total == 0
    then record { dropped = 0; total = 1 }
    else record { dropped = m.messages_dropped; total = loss_total }
