-- ===== src/Tests/Records.antt =====
-- The event log, the preset names, the PIN, the waveform header and the NTP reply at concrete
-- inputs.
use teg.Prelude.{
  ◌*◌, ℕ, ◌+◌, ◌≡◌, ◌↔◌, refl, true, none, some, List, [], ◌∷◌, ◌++◌, ltb, if◌then◌else◌, length,
  get_or, replicate, arith,
}
use teg.Log.{
  EventLog, EventEntry, unused, event_log_clear, event_log_add, event_log_at, civil_from_epoch,
}
use teg.Log.Ring.{Represents, entry_of, clear-Represents, add-Represents}
use teg.Log.Query.{skipped, at-eq}
use teg.Log.Civil.{IsTimeOf, civil_from_epoch-IsTimeOf}
use teg.Preset.{preset_name_valid}
use teg.Preset.Name.{IsSafe, valid_iff}
use teg.Ntp.{ntp_to_unix_epoch, validate_ntp_response}
use teg.Ntp.Reply.{reply, IsServer, validate-reply}

abbrev text : List ℕ
text = b'o' ∷ b'k' ∷ []

abbrev one : EventLog
one = event_log_add event_log_clear 1 text 0 5

abbrev history : List EventEntry
history = [] ++ entry_of event_log_clear 1 text 0 5 ∷ []

one-Represents : Represents one history
one-Represents = add-Represents event_log_clear [] 1 text 0 5 clear-Represents (omega arith)

add-Represents_example :
    Represents (event_log_add one 2 text 7 9) (history ++ entry_of one 2 text 7 9 ∷ [])
add-Represents_example = add-Represents one history 2 text 7 9 one-Represents (omega arith)

at-eq_example : event_log_at one 0 0 ≡ (
    if ltb (skipped history 0 + 0) (length history)
    then some (get_or history (skipped history 0 + 0) unused)
    else none)
at-eq_example = at-eq one history one-Represents (omega arith) 0 0 (omega arith)

civil_from_epoch-IsTimeOf_example : IsTimeOf 1700000000 (civil_from_epoch 1700000000)
civil_from_epoch-IsTimeOf_example = civil_from_epoch-IsTimeOf 1700000000 (omega arith)

-- "ab"
abbrev name : List ℕ
name = b'a' ∷ b'b' ∷ []

valid_iff_example : (preset_name_valid (some name) ≡ true) ↔ IsSafe name
valid_iff_example = valid_iff name

abbrev answer : List ℕ
answer = reply 36 2 (replicate 22 0) 77 (replicate 8 1 ++ 240 ∷ 1 ∷ 2 ∷ 3 ∷ (0 ∷ 0 ∷ 0 ∷ 0 ∷ []))

validate-reply_example : (validate_ntp_response answer 77 ≡ some 4026597891) ↔ (
    (◌≡◌ {A = ℕ} 77 77)
    × IsServer 36 2
    × (4026597891 ≡ 240 * 16777216 + 1 * 65536 + 2 * 256 + 3)
    × (2208988800 + ntp_to_unix_epoch 4026597891 ≡ 4026597891))
validate-reply_example =
    validate-reply 36 2 (replicate 22 0) 77 (replicate 8 1) 240 1 2 3 (0 ∷ 0 ∷ 0 ∷ 0 ∷ []) 77
      4026597891 refl (omega arith) refl
      (omega arith, (omega arith, (omega arith, (omega arith, tt))))
