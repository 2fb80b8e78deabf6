-- ===== src/Log/Ring.antt =====
-- src/event_log.h: the ring and the list of all events ever recorded.
use teg.Prelude.{
  ℕ, ◌+◌, ◌-◌, ◌%◌, ◌^◌, ◌<◌, ◌≤◌, ◌≡◌, refl, ap, sym, ◌∙◌, List, [], ◌∷◌, ◌++◌, length,
  length-append, length-set, get_or, set, get_or-set_self, get_or-set_ne, get_or-append_left,
  get_or-append_right, arith,
}
use native.Mathlib.Decide.{ℕ_discrete}
use teg.Log.{
  EventLog, EventEntry, unused, event_log_capacity, event_text_max, event_log_clear, event_log_add,
  copy_text,
}

-- The ring after the events of `history`, the oldest first. The n-th event, counted from 0, has the
-- sequence number n + 1, and while it is among the last 128 its slot holds it.
pub record Represents (log : EventLog) (history : List EventEntry) : Type 0 where
  pub count : log.written ≡ length history
  pub numbered : log.next_seq ≡ length history + 1
  pub slots : length log.entries ≡ event_log_capacity
  pub retained :
      (n : ℕ)
      → n < length history
      → length history ≤ n + event_log_capacity
      → get_or log.entries (n % event_log_capacity) unused ≡ get_or history n unused
  pub seq_of : (n : ℕ) → n < length history → (get_or history n unused).seq ≡ n + 1

-- A cleared log represents no events.
pub clear-Represents : Represents event_log_clear []
unfolding event_log_clear
clear-Represents = record {
  count = refl;
  numbered = refl;
  slots = refl;
  retained = λ n h k. absurd (omega arith);
  seq_of = λ n h. absurd (omega arith);
}

-- The entry that an addition records.
abbrev pub entry_of : EventLog → ℕ → List ℕ → ℕ → ℕ → EventEntry
entry_of log level text epoch uptime_ms = record {
  seq = log.next_seq;
  epoch = epoch;
  uptime_ms = uptime_ms;
  level = level;
  text = copy_text (event_text_max - 1) text;
}

-- On a log of fewer than 2^32 - 2 events, adding one appends it to the history, whatever it
-- overwrites in the ring.
pub add-Represents :
    (log : EventLog) (history : List EventEntry) (level : ℕ) (text : List ℕ) (epoch uptime_ms : ℕ)
    → Represents log history
    → length history + 2 < 2 ^ 32
    → Represents
        (event_log_add log level text epoch uptime_ms)
        (history ++ entry_of log level text epoch uptime_ms ∷ [])
unfolding event_log_add
add-Represents log history level text epoch uptime_ms r small = record {
  count = omega (arith, r.count, size);
  numbered = omega (arith, r.numbered, size);
  slots = length-set log.entries (log.written % event_log_capacity) e ∙ r.slots;
  retained = λ n h k. elim (ℕ_discrete n (length history)) [
    | yes new ↦ ground (arith, slot, last, new, r.count)
    | no old ↦
        get_or-set_ne log.entries (log.written % event_log_capacity) (n % event_log_capacity) e
          unused (λ t. absurd (omega (arith, r.count, size)))
        ∙ r.retained n (omega (arith, size)) (omega (arith, size))
        ∙ sym (get_or-append_left history (e ∷ []) n unused (omega (arith, size)))
  ];
  seq_of = λ n h. elim (ℕ_discrete n (length history)) [
    | yes new ↦ ground (arith, last, new, r.numbered)
    | no old ↦
        ap (λ t. t.seq) (get_or-append_left history (e ∷ []) n unused (omega (arith, size)))
        ∙ r.seq_of n (omega (arith, size))
  ];
}
  where
    e : EventEntry
    e = entry_of log level text epoch uptime_ms

    size : length (history ++ e ∷ []) ≡ length history + 1
    size = length-append history (e ∷ [])

    last : get_or (history ++ e ∷ []) (length history) unused ≡ e
    last =
        let first : length history - length history ≡ 0 = omega arith in
        get_or-append_right history (e ∷ []) (length history) unused (omega arith)
        ∙ ap (λ t. get_or (e ∷ []) t unused) first

    slot :
        get_or
          (set log.entries (log.written % event_log_capacity) e)
          (log.written % event_log_capacity)
          unused
        ≡ e
    slot =
        get_or-set_self log.entries (log.written % event_log_capacity) e unused
          (omega (arith, r.slots))
