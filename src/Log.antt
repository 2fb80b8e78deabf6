-- ===== src/Log.antt =====
-- src/event_log.h: the ring of the last 128 events, and the clock text of an entry.
-- `entries` are the slots; `seq`, `epoch` and the counters are 32-bit words.
pub mod Ring
pub mod Query
pub mod Civil
use teg.Prelude.{
  ℕ, zero, suc, ◌+◌, ◌-◌, ◌*◌, ◌/◌, ◌%◌, Bool, ◌&&◌, ◌||◌, Option, none, some, List, [], ◌∷◌, ◌++◌,
  ltb, leb, ◌==◌, if◌then◌else◌, get_or, set, replicate,
}
use teg.Prelude.Words.{add32, sub32, u8}

abbrev pub event_log_capacity : ℕ
event_log_capacity = 128

abbrev pub event_text_max : ℕ
event_text_max = 96

pub record EventEntry : Type 0 where
  pub seq : ℕ
  pub epoch : ℕ
  pub uptime_ms : ℕ
  pub level : ℕ
  pub text : List ℕ  -- the characters before the NUL

abbrev pub unused : EventEntry
unused = record { seq = 0; epoch = 0; uptime_ms = 0; level = 0; text = [] }

pub record EventLog : Type 0 where
  pub entries : List EventEntry
  pub next_seq : ℕ
  pub written : ℕ

unfoldable pub event_log_clear : EventLog
event_log_clear = record {
  entries = replicate event_log_capacity unused;
  next_seq = 1;
  written = 0;
}

-- A control byte, or one beyond ASCII, becomes a space.
unfoldable pub sanitise : ℕ → ℕ
sanitise c = if leb 0x20 c && ltb c 0x7F then c else b' '

-- The copying loop, with the room left first; the text ends at its NUL. A null pointer is the empty
-- text.
unfoldable pub copy_text : ℕ → List ℕ → List ℕ
copy_text zero text = []
copy_text (suc room) [] = []
copy_text (suc room) (c ∷ cs) =
    let rest = copy_text room cs in if c == 0 then [] else sanitise c ∷ rest

unfoldable pub event_log_add : EventLog → ℕ → List ℕ → ℕ → ℕ → EventLog
event_log_add log level text epoch uptime_ms = record {
  entries = set log.entries (log.written % event_log_capacity) (record {
    seq = log.next_seq;
    epoch = epoch;
    uptime_ms = uptime_ms;
    level = level;
    text = copy_text (event_text_max - 1) text;
  });
  next_seq = add32 log.next_seq 1;
  written = add32 log.written 1;
}

unfoldable pub event_log_oldest_seq : EventLog → ℕ
event_log_oldest_seq log =
    if leb log.written event_log_capacity then 1 else add32 (sub32 log.written event_log_capacity) 1

unfoldable pub from_seq : EventLog → ℕ → ℕ
from_seq log since =
    let oldest = event_log_oldest_seq log in
    if ltb oldest (add32 since 1) then add32 since 1 else oldest

unfoldable pub event_log_count_since : EventLog → ℕ → ℕ
event_log_count_since log since =
    let newest = sub32 log.next_seq 1 in
    if newest == 0 || leb newest since then 0 else add32 (sub32 newest (from_seq log since)) 1

-- `none` is the null pointer.
unfoldable pub event_log_at : EventLog → ℕ → ℕ → Option EventEntry
event_log_at log since i =
    let seq = add32 (from_seq log since) i in
    if leb (event_log_count_since log since) i
    then none
    else some (get_or log.entries (sub32 seq 1 % event_log_capacity) unused)

unfoldable pub event_log_gap_since : EventLog → ℕ → Bool
event_log_gap_since log since = ltb since (sub32 (event_log_oldest_seq log) 1)

unfoldable pub event_log_newest_seq : EventLog → ℕ
event_log_newest_seq log = sub32 log.next_seq 1

pub data LevelName : Type 0 where
  warn error info : LevelName

unfoldable pub event_level_name : ℕ → LevelName
event_level_name level = if level == 1 then warn else if level == 2 then error else info

pub record CivilTime : Type 0 where
  pub year : ℕ
  pub month : ℕ
  pub day : ℕ
  pub hour : ℕ
  pub minute : ℕ
  pub second : ℕ

-- Howard Hinnant's civil_from_days on the day's number; `z` is never negative, so `era` is `z / 146097`.
unfoldable pub civil_from_days : ℕ → ℕ × ℕ × ℕ
civil_from_days days =
    let z = days + 719468 in
    let era = z / 146097 in
    let doe = z - era * 146097 in
    let yoe = (doe - doe / 1460 + doe / 36524 - doe / 146096) / 365 in
    let y = yoe + era * 400 in
    let doy = doe - (365 * yoe + yoe / 4 - yoe / 100) in
    let mp = (5 * doy + 2) / 153 in
    let day = u8 (doy - (153 * mp + 2) / 5 + 1) in
    let month = u8 (if ltb mp 10 then mp + 3 else mp - 9) in
    (if leb month 2 then y + 1 else y, month, day)

unfoldable pub civil_from_epoch : ℕ → CivilTime
civil_from_epoch epoch =
    let rem = epoch % 86400 in
    let (year, month, day) = civil_from_days (epoch / 86400) in
    record {
      year = year;
      month = month;
      day = day;
      hour = u8 (rem / 3600);
      minute = u8 (rem % 3600 / 60);
      second = u8 (rem % 3600 % 60);
    }

abbrev pub digit : ℕ → ℕ
digit v = b'0' + v % 10

abbrev pub two : ℕ → List ℕ
two v = digit (v / 10) ∷ digit v ∷ []

-- `formatIso8601`: the text, or `none` where the buffer is too small.
unfoldable pub format_iso8601 : ℕ → ℕ → Option (List ℕ)
format_iso8601 size epoch =
    let t = civil_from_epoch epoch in
    if ltb size 21
    then none
    else if epoch == 0
    then some []
    else some (
        digit (t.year / 1000)
        ∷ digit (t.year / 100)
        ∷ digit (t.year / 10)
        ∷ digit t.year
        ∷ b'-'
        ∷ (two t.month
            ++ b'-'
              ∷ (two t.day
                  ++ b'T'
                    ∷ (two t.hour ++ b':' ∷ (two t.minute ++ b':' ∷ (two t.second ++ b'Z' ∷ []))))))
