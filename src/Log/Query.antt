-- ===== src/Log/Query.antt =====
-- src/event_log.h: the queries, against the list of all events.
use teg.Prelude.{
  ℕ, ◌+◌, ◌-◌, ◌^◌, ◌<◌, ◌≡◌, ◌↔◌, true, none, some, List, length, get_or, max, ltb, if◌then◌else◌,
  arith,
}
use teg.Prelude.Words.{IsU32}
use teg.Log.{
  EventLog, EventEntry, unused, event_log_capacity, event_log_oldest_seq, event_log_count_since,
  from_seq, event_log_at, event_log_gap_since,
}
use teg.Log.Ring.{Represents}

-- The number of events that a client with the cursor `since` can no longer get or already has.
abbrev pub skipped : List EventEntry → ℕ → ℕ
skipped history since = max since (length history - event_log_capacity)

module _ (log : EventLog) (history : List EventEntry) (r : Represents log history)
    (small : length history + 2 < 2 ^ 32) where
  oldest_eq : event_log_oldest_seq log ≡ length history - event_log_capacity + 1
  unfolding event_log_oldest_seq
  oldest_eq = ground (arith, r.count)

  -- On a log that represents fewer than 2^32 - 2 events, the count for a 32-bit cursor is that of the
  -- events behind it that are still retained.
  pub count_since-eq :
      (since : ℕ)
      → IsU32 since
      → event_log_count_since log since ≡ length history - skipped history since
  unfolding event_log_count_since from_seq
  count_since-eq since h = ground (arith, r.numbered, oldest_eq)

  from_eq : (since : ℕ) → since < length history → from_seq log since ≡ skipped history since + 1
  unfolding from_seq
  from_eq since h = ground (arith, oldest_eq)

  -- On a log that represents fewer than 2^32 - 2 events, the i-th answer to a 32-bit cursor is the
  -- i-th retained event behind it, in order and without gaps; past the last one there is none.
  pub at-eq :
      (since i : ℕ)
      → IsU32 since
      → event_log_at log since i ≡ (
          if ltb (skipped history since + i) (length history)
          then some (get_or history (skipped history since + i) unused)
          else none)
  unfolding event_log_at
  at-eq since i h =
      ground (arith, count_since-eq since h, from_eq since, r.retained (skipped history since + i))

  -- On a log that represents fewer than 2^32 - 2 events, the cursor has a gap
  -- exactly when an event behind it has been evicted.
  pub gap_since_iff :
      (since : ℕ)
      → (event_log_gap_since log since ≡ true) ↔ (since + event_log_capacity < length history)
  unfolding event_log_gap_since
  gap_since_iff since = ground (arith, oldest_eq)
