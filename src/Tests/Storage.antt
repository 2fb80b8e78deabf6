-- ===== src/Tests/Storage.antt =====
-- The card, the inflater, the modulation and the edges at concrete inputs.
use teg.Prelude.{
  ℕ, ◌*◌, ◌/◌, ◌^◌, max, ◌≡◌, refl, ap, ◌∙◌, inl, Bool, true, false, Option, none, some, [], ◌∷◌,
  arith, if◌then◌else◌, All,
}
use teg.Prelude.Int.{pos}
use teg.Pair.{
  pair_mode_sanitised_for_scheme, pair_is_complementary, pair_mode_sanitised,
  pair_allows_complementary, pair_has_channel_b,
}
use teg.Config.Store.{
  live, tmp, bak, bad, complete, Name, same_name, FileSystem, read_config_document,
  save_configuration, swap, swap_in, exists, candidate, load_configuration,
}
use teg.Config.Store.Crash.{Recoverable, save-Recoverable}
use teg.Config.Store.Load.{OneRecent, IsNewest, best-IsNewest, load-Recoverable}
use teg.Config.Store.Saved.{last_of, IsLoaded, save-IsLoaded}
use teg.Modulation.{
  soft_start_step_q24, modulation_cell_plan, scheme_requires_polarity_inversion, inverts_from,
}
use teg.Modulation.Ramp.{ramp, ramp-reaches}
use teg.Modulation.Plan.{pair-straight}
use teg.Spwm.{best_prescaler_index, prescaler_from}
use teg.Timing.{minus, nanos_to_ticks, negative, below, place_edges, compute_asymmetric_timings}
use teg.Timing.Edges.{IsOrdered, timings-IsOrdered}

-- A card that holds a generation in each file, and whose calls succeed.
abbrev Files : Type 0
Files = Name → Option ℕ

abbrev erased : Files → Name → Files
erased s n m = if same_name n m then none else s m

abbrev moved : Files → Name → Name → Files
moved s a b m = if same_name b m then s a else if same_name a m then none else s m

abbrev stored : Files → Name → ℕ → Files
stored s n d m = if same_name n m then some d else s m

same_name_self : (n : Name) → same_name n n ≡ true
same_name_self live = refl
same_name_self tmp = refl
same_name_self bak = refl
same_name_self bad = refl

abbrev card : FileSystem ℕ
card = record {
  Card = Files;
  file = λ s n. s n;
  remove = erased;
  rename = λ s a b. (true, moved s a b);
  write = λ s n d. (complete, stored s n d);
  during = λ s n d. erased s n ∷ [];
  remove-other = λ s n m h. ap (λ (b : Bool). if b then none else s m) h;
  rename-moved = λ s a b h.
      ap (λ (t : Bool). if t then s a else if same_name a b then none else s b) (same_name_self b);
  rename-other = λ s a b m ha hb.
      ap (λ (t : Bool). if t then s a else if same_name a m then none else s m) hb
      ∙ ap (λ (t : Bool). if t then none else s m) ha;
  rename-failed = λ s a b m h. absurd (let no_go : true ≡ false = h in cc);
  write-other = λ s n m d h. ap (λ (b : Bool). if b then some d else s m) h;
  during-other = λ s n m d h. (ap (λ (b : Bool). if b then none else s m) h, tt);
}

abbrev before_save : Files
before_save live = some 4
before_save tmp = none
before_save bak = some 3
before_save bad = none

abbrev cut_off : Files
cut_off live = none
cut_off tmp = some 5
cut_off bak = some 4
cut_off bad = none

live_reads : read_config_document card some before_save live ≡ some 4
unfolding read_config_document
live_reads = refl

live_recent : OneRecent 1 (candidate card some (λ d. true) cut_off live)
unfolding candidate
live_recent = tt

tmp_recent : OneRecent 1 (candidate card some (λ d. true) cut_off tmp)
unfolding candidate
tmp_recent = (omega arith, omega arith, omega arith)

bak_recent : OneRecent 1 (candidate card some (λ d. true) cut_off bak)
unfolding candidate
bak_recent = (omega arith, omega arith, omega arith)

save-Recoverable_example :
    All (Recoverable card some) (save_configuration card some before_save 5 5).1
save-Recoverable_example = save-Recoverable card some before_save 5 5 (inl (4, live_reads))

load-Recoverable_example :
    All (Recoverable card some) (load_configuration card some (λ d. true) cut_off).1
load-Recoverable_example = load-Recoverable card some (λ d. true) cut_off

best-IsNewest_example :
    IsNewest card some (λ d. true) cut_off (load_configuration card some (λ d. true) cut_off).0
best-IsNewest_example =
    best-IsNewest card some (λ d. true) cut_off 1 live_recent tmp_recent bak_recent

save_succeeds : (save_configuration card some before_save 5 5).0 ≡ true
unfolding save_configuration swap swap_in read_config_document exists
save_succeeds = refl

abbrev saved : Files
saved = last_of before_save (save_configuration card some before_save 5 5).1

saved_tmp : OneRecent 1 (candidate card some (λ d. true) saved tmp)
unfolding candidate save_configuration swap swap_in read_config_document exists
saved_tmp = tt

saved_bak : OneRecent 1 (candidate card some (λ d. true) saved bak)
unfolding candidate save_configuration swap swap_in read_config_document exists
saved_bak = (omega arith, omega arith, omega arith)

stored_whole : card.file (card.write (card.remove before_save tmp) tmp 5).1 tmp ≡ some 5
stored_whole = refl

save-IsLoaded_example :
    IsLoaded card some before_save 5 5
      (λ d. true)
      1
      (load_configuration card some (λ d. true) saved).0
save-IsLoaded_example =
    save-IsLoaded card some before_save 5 5 (λ d. true) 1 (λ whole. stored_whole) save_succeeds refl
      (omega arith, omega arith, omega arith) saved_tmp saved_bak

-- A soft start of two cycles.
ramp-reaches_example :
    ramp (max 1 (100 * 20000 / 1000)) 0 32768 (soft_start_step_q24 32768 100 20000) ≡ 32768 * 2 ^ 24
ramp-reaches_example = ramp-reaches 32768 100 20000

pair_runs :
    pair_is_complementary
      (pair_mode_sanitised_for_scheme 1 1 (scheme_requires_polarity_inversion 4 0 4))
    ≡ true
unfolding pair_is_complementary pair_mode_sanitised_for_scheme pair_mode_sanitised
    pair_allows_complementary pair_has_channel_b scheme_requires_polarity_inversion inverts_from
    modulation_cell_plan
pair_runs = refl

pair-straight_example : (modulation_cell_plan 4 0 3 4).polarity_inverted ≡ false
pair-straight_example = pair-straight 1 1 4 0 4 3 (omega arith) pair_runs

edges_valid :
    (compute_asymmetric_timings 150000000 20000 32768 (pos 250) (pos 500) 65535).valid ≡ true
unfolding compute_asymmetric_timings place_edges minus nanos_to_ticks negative below
    best_prescaler_index prescaler_from
edges_valid = refl

timings-IsOrdered_example :
    IsOrdered 65535 (compute_asymmetric_timings 150000000 20000 32768 (pos 250) (pos 500) 65535)
timings-IsOrdered_example =
    timings-IsOrdered 150000000 20000 32768 (pos 250) (pos 500) 65535 (omega arith) edges_valid
