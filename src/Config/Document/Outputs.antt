-- ===== src/Config/Document/Outputs.antt =====
-- The outputs that are written and read again.
use teg.Prelude.{ℕ, ◌%◌, ◌<◌, ◌≡◌, refl, ap, ◌∙◌, [], ◌∷◌, ◌++◌, arith}
use teg.Prelude.Int.{pos, to_u32}
use teg.Pair.{min_half_bridge_dead_time_ns}
use teg.Pair.PairMode.{independent}
use teg.Config.Types.{
  default_pwm_frequency_hz, default_modulation_carrier_hz, ChannelConfig, SubmoduleConfig,
}
use teg.Config.Json.{find, JsonLibrary, Object, get, get_u16, get_u32}
use Prim.Native.String.{String}
use teg.Config.Document.{
  channel_to_json, channel_from_json, leg_fields, side_a, side_b, frequency_field, full_to_json,
  one_sided_to_json, cell_to_json, one_sided_cell_to_json, leg_from_json, sm13_from_json,
  full_from_json, one_sided_from_json, cell_frequency, cell_from_json, one_sided_cell_from_json,
}

-- The values of a submodule that the JSON reader takes as they are.
pub record StorableLeg (s : SubmoduleConfig) : Type 0 where
  pub pair : s.pair < 3
  pub dead_time : s.dead_time < 65536
  pub pwm_frequency : s.pwm_frequency < 2147483648
  pub duty_a : s.channel_a.duty_cycle < 65536
  pub duty_b : s.channel_b.duty_cycle < 65536

module _ (j : JsonLibrary) where
  channel-again :
      (k : String) (fields : Object j) (s : ChannelConfig)
      → s.duty_cycle < 65536
      → find j.nothing k fields ≡ channel_to_json j s
      → channel_from_json j (j.member (j.object fields) k) ≡ s
  unfolding channel_to_json channel_from_json
  channel-again k fields s r h =
      let e : (channel_from_json j (channel_to_json j s)).duty_cycle ≡ s.duty_cycle =
        get_u16 j "DutyCycle" (("DutyCycle", j.of_int (pos s.duty_cycle)) ∷ []) s.duty_cycle (pos 0)
          r refl in
      let same : channel_from_json j (channel_to_json j s) ≡ s = cc in
      get j k fields (channel_from_json j) (channel_to_json j s) h ∙ same

  -- The fields that every submodule has.
  leg-again :
      (fields : Object j) (s : SubmoduleConfig) (frequency : ℕ) (b : ChannelConfig)
      → StorableLeg s
      → find j.nothing "Pair" fields ≡ j.of_int (pos s.pair)
      → find j.nothing "DeadTime" fields ≡ j.of_int (pos s.dead_time)
      → find j.nothing "ChannelA" fields ≡ channel_to_json j s.channel_a
      → leg_from_json j (j.object fields) frequency b
        ≡ record s { pwm_frequency = frequency; channel_b = b }
  unfolding leg_from_json
  leg-again fields s frequency b r pair dead a =
      let read = leg_from_json j (j.object fields) frequency b in
      let e_pair : read.pair ≡ s.pair =
        ap (λ n. n % 256)
          (get j "Pair" fields (λ v. j.mode_or v independent) (j.of_int (pos s.pair)) pair
            ∙ j.mode_or-of_int s.pair independent r.pair)
        ∙ omega (arith, r.pair) in
      let e_dead : read.dead_time ≡ s.dead_time =
        get j "DeadTime" fields (λ v. j.u16_or v min_half_bridge_dead_time_ns)
          (j.of_int (pos s.dead_time)) dead
        ∙ j.u16_or-of_int s.dead_time min_half_bridge_dead_time_ns r.dead_time in
      let e_a : read.channel_a ≡ s.channel_a =
        channel-again "ChannelA" fields s.channel_a r.duty_a a in
      cc

  module _ (s : SubmoduleConfig) (r : StorableLeg s) where
    abbrev full : Object j
    full = leg_fields j s ++ frequency_field j s ++ side_a j s ++ side_b j s

    abbrev one_sided : Object j
    one_sided = leg_fields j s ++ frequency_field j s ++ side_a j s

    abbrev cell : Object j
    cell = leg_fields j s ++ side_a j s ++ side_b j s

    abbrev one_sided_cell : Object j
    one_sided_cell = leg_fields j s ++ side_a j s

    frequency_int :
        (fields : Object j)
        → find j.nothing "PwmFrequency" fields ≡ j.of_int (pos s.pwm_frequency)
        → to_u32 (j.int_or (j.member (j.object fields) "PwmFrequency") (pos 1000)) ≡ s.pwm_frequency
    frequency_int fields h =
        get_u32 j "PwmFrequency" fields s.pwm_frequency (pos 1000) r.pwm_frequency h

    no_frequency :
        (fields : Object j)
        → find j.nothing "PwmFrequency" fields ≡ j.nothing
        → cell_frequency j (j.object fields) ≡ default_modulation_carrier_hz
    no_frequency fields h =
        get j "PwmFrequency" fields (λ v. j.u32_or v default_modulation_carrier_hz) j.nothing h
        ∙ j.u32_or-nothing default_modulation_carrier_hz

    pub full-again : full_from_json j (full_to_json j s) ≡ s
    unfolding full_from_json full_to_json
    full-again =
        leg-again full s (to_u32 (j.int_or (j.member (j.object full) "PwmFrequency") (pos 1000)))
          (channel_from_json j (j.member (j.object full) "ChannelB")) r refl refl refl
        ∙ (let e : to_u32 (j.int_or (j.member (j.object full) "PwmFrequency") (pos 1000))
                ≡ s.pwm_frequency =
              frequency_int full refl in
            let f : channel_from_json j (j.member (j.object full) "ChannelB") ≡ s.channel_b =
              channel-again "ChannelB" full s.channel_b r.duty_b refl in
            cc)

    pub sm13-again : sm13_from_json j (full_to_json j s) ≡ s
    unfolding sm13_from_json full_to_json
    sm13-again =
        leg-again full s
          (j.u32_or (j.member (j.object full) "PwmFrequency") default_pwm_frequency_hz)
          (channel_from_json j (j.member (j.object full) "ChannelB")) r refl refl refl
        ∙ (let e : j.u32_or (j.member (j.object full) "PwmFrequency") default_pwm_frequency_hz
                ≡ s.pwm_frequency =
              get j "PwmFrequency" full (λ v. j.u32_or v default_pwm_frequency_hz)
                (j.of_int (pos s.pwm_frequency)) refl
              ∙ j.u32_or-of_int s.pwm_frequency default_pwm_frequency_hz
                  (omega (arith, r.pwm_frequency)) in
            let f : channel_from_json j (j.member (j.object full) "ChannelB") ≡ s.channel_b =
              channel-again "ChannelB" full s.channel_b r.duty_b refl in
            cc)

    pub one_sided-again :
        (before : SubmoduleConfig)
        → s.channel_b ≡ before.channel_b
        → one_sided_from_json j (one_sided_to_json j s) before ≡ s
    unfolding one_sided_from_json one_sided_to_json
    one_sided-again before b =
        leg-again one_sided s
          (to_u32 (j.int_or (j.member (j.object one_sided) "PwmFrequency") (pos 1000)))
          before.channel_b r refl refl refl
        ∙ (let e : to_u32 (j.int_or (j.member (j.object one_sided) "PwmFrequency") (pos 1000))
                ≡ s.pwm_frequency =
              frequency_int one_sided refl in
            cc)

    pub cell-again :
        cell_from_json j (cell_to_json j s)
        ≡ record s { pwm_frequency = default_modulation_carrier_hz }
    unfolding cell_from_json cell_to_json
    cell-again =
        leg-again cell s (cell_frequency j (j.object cell))
          (channel_from_json j (j.member (j.object cell) "ChannelB")) r refl refl refl
        ∙ (let e : cell_frequency j (j.object cell) ≡ default_modulation_carrier_hz =
              no_frequency cell refl in
            let f : channel_from_json j (j.member (j.object cell) "ChannelB") ≡ s.channel_b =
              channel-again "ChannelB" cell s.channel_b r.duty_b refl in
            cc)

    pub one_sided_cell-again :
        (before : SubmoduleConfig)
        → s.channel_b ≡ before.channel_b
        → one_sided_cell_from_json j (one_sided_cell_to_json j s) before
          ≡ record s { pwm_frequency = default_modulation_carrier_hz }
    unfolding one_sided_cell_from_json one_sided_cell_to_json
    one_sided_cell-again before b =
        leg-again one_sided_cell s (cell_frequency j (j.object one_sided_cell)) before.channel_b r
          refl refl refl
        ∙ (let e : cell_frequency j (j.object one_sided_cell) ≡ default_modulation_carrier_hz =
              no_frequency one_sided_cell refl in
            cc)
